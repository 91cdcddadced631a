-- ===== src/Keyboard.antt =====
-- The keys that the client of apps/client/src/app.rs sends, at the agents of apps/agent/src/input.rs
-- and apps/agent/src/windows/input.rs: the three tables together.
use remotekvm.Base.{
  ℕ, ◌≡◌, refl, ap, sym, ◌∙◌, List, [], ◌∷◌, Bool, true, false, ◌&&◌, Option, none, some,
  Option-cases, Bool-cases, inl, inr, ◌⊎◌, String, ◌==◌, str_eq, str_eq→eq, if◌then◌else◌, arith,
}
use remotekvm.Base.Maps.{Map, lookup}
use remotekvm.Protocol.{InputEvent}
use remotekvm.Client.Input.{hid_usages, egui_key_to_hid, EguiEvent, egui_event_to_input}
use remotekvm.Agent.Input.Macos.{hid_to_macos_keycode, MacEvent, macos_inject}
use remotekvm.Agent.Input.Windows.{hid_to_vk, WinNumbers, WinInput, windows_inject}

-- A check of each entry of a table, at the entry that a lookup finds.
all_entries : (String → ℕ → Bool) → Map ℕ → Bool
all_entries p [] = true
all_entries p ((key, value) ∷ table) = p key value && all_entries p table

all_entries_sound :
    (p : String → ℕ → Bool) (key : String) (value : ℕ) (table : Map ℕ)
    → all_entries p table ≡ true
    → lookup key table ≡ some value
    → p key value ≡ true
unfolding all_entries lookup
all_entries_sound p key value [] all found = absurd (ground arith)
all_entries_sound p key value ((held, old) ∷ table) all found =
    elim (Bool-cases (str_eq held key)) [
      | inl hit ↦
          let name : held ≡ key = str_eq→eq held key hit in
          let same : old ≡ value = ground (arith, rw hit at found) in
          rw (← name, ← same) (ground arith)
      | inr miss ↦ all_entries_sound p key value table (ground arith) (rw miss at found)
    ]

-- The first key of the table with a code.
key_with : (ℕ → Option ℕ) → ℕ → Map ℕ → Option String
key_with code wanted [] = none
key_with code wanted ((key, hid) ∷ table) =
    let rest = key_with code wanted table in if is_code (code hid) wanted then some key else rest
  where
    is_code : Option ℕ → ℕ → Bool
    is_code none wanted = false
    is_code (some found) wanted = found == wanted

is_key : Option String → String → Bool
is_key none key = false
is_key (some found) key = str_eq found key

names_itself : (ℕ → Option ℕ) → String → Option ℕ → Bool
names_itself code key none = false
names_itself code key (some found) = is_key (key_with code found hid_usages) key

macos_agrees :
    all_entries
      (λ key hid. names_itself hid_to_macos_keycode key (hid_to_macos_keycode hid))
      hid_usages
    ≡ true
unfolding all_entries names_itself is_key key_with hid_to_macos_keycode
macos_agrees = refl

windows_agrees :
    all_entries (λ key hid. names_itself hid_to_vk key (hid_to_vk hid)) hid_usages ≡ true
unfolding all_entries names_itself is_key key_with hid_to_vk
windows_agrees = refl

-- A code that a key is injected with, and by which the table gives the key back.
record HasCode (code : ℕ → Option ℕ) (key : String) (hid : ℕ) : Type 0 where
  pub found : ℕ
  pub maps : code hid ≡ some found
  pub back : key_with code found hid_usages ≡ some key

has_code :
    (code : ℕ → Option ℕ) (key : String) (hid : ℕ) (o : Option ℕ)
    → code hid ≡ o
    → names_itself code key o ≡ true
    → HasCode code key hid
unfolding names_itself is_key
has_code code key hid none e h = absurd (ground arith)
has_code code key hid (some found) e h = elim (Option-cases (key_with code found hid_usages)) [
  | inl missing ↦ absurd (ground (arith, rw missing at h))
  | inr (name, given) ↦ record {
    found = found;
    maps = e;
    back = given ∙ ap some (str_eq→eq name key (rw given at h));
  }
]

on_macos :
    (key : String) (hid : ℕ) → egui_key_to_hid key ≡ some hid → HasCode hid_to_macos_keycode key hid
unfolding egui_key_to_hid
on_macos key hid h =
    has_code hid_to_macos_keycode key hid _ refl
      (all_entries_sound _ key hid hid_usages macos_agrees h)

on_windows : (key : String) (hid : ℕ) → egui_key_to_hid key ≡ some hid → HasCode hid_to_vk key hid
unfolding egui_key_to_hid
on_windows key hid h =
    has_code hid_to_vk key hid _ refl (all_entries_sound _ key hid hid_usages windows_agrees h)

module _ {F W : Type 0} (numbers : WinNumbers F W) (pos : F × F) where
  record IsTyped (key : String) (hid : ℕ) (pressed : Bool) (event : InputEvent F) : Type 0 where
    pub mac : HasCode hid_to_macos_keycode key hid
    pub win : HasCode hid_to_vk key hid
    pub sent : egui_event_to_input (EguiEvent.key key pressed) ≡ some event
    pub on_mac : macos_inject pos event ≡ MacEvent.keyboard mac.found pressed ∷ []
    pub on_win : windows_inject numbers event ≡ WinInput.keyboard win.found pressed ∷ []

  typed :
      (key : String) (hid : ℕ) (pressed : Bool)
      → egui_key_to_hid key ≡ some hid
      → (event : InputEvent F) × IsTyped key hid pressed event
  unfolding egui_event_to_input macos_inject windows_inject
  typed key hid true h =
      let m = on_macos key hid h in
      let w = on_windows key hid h in
      (
        InputEvent.key_down hid,
        record {
          mac = m;
          win = w;
          sent = rw h refl;
          on_mac = rw m.maps refl;
          on_win = rw w.maps refl;
        },
      )
  typed key hid false h =
      let m = on_macos key hid h in
      let w = on_windows key hid h in
      (
        InputEvent.key_up hid,
        record {
          mac = m;
          win = w;
          sent = rw h refl;
          on_mac = rw m.maps refl;
          on_win = rw w.maps refl;
        },
      )

  -- Each key that the client maps reaches both kinds of agent: the event that the client sends for
  -- it makes the agent inject one keyboard event, with a code and with the state of the key.
  key_typed :
      (key : String) (hid : ℕ) (pressed : Bool)
      → egui_key_to_hid key ≡ some hid
      → (event : InputEvent F) × (code : ℕ) × (vk : ℕ) × (egui_event_to_input
            (EguiEvent.key key pressed)
          ≡ some event)
        × (macos_inject pos event ≡ MacEvent.keyboard code pressed ∷ [])
        × (windows_inject numbers event ≡ WinInput.keyboard vk pressed ∷ [])
  key_typed key hid pressed h =
      let (event, t) = typed key hid pressed h in
      (event, t.mac.found, t.win.found, t.sent, t.on_mac, t.on_win)

  same_key :
      (code : ℕ → Option ℕ) (a b : String) (ha hb : ℕ) (x : HasCode code a ha)
      (y : HasCode code b hb)
      → x.found ≡ y.found
      → a ≡ b
  same_key code a b ha hb x y e =
      let both : some a ≡ some b = sym x.back ∙ ap (λ n. key_with code n hid_usages) e ∙ y.back in
      cc

  -- No two key events of the client are injected alike, on either platform: where the calls that two
  -- events cause on macOS are the same, or those on Windows, the keys and their states are the same.
  pub keys_apart :
      (a b : String) (ha hb : ℕ) (p q : Bool) (e f : InputEvent F)
      → egui_key_to_hid a ≡ some ha
      → egui_key_to_hid b ≡ some hb
      → egui_event_to_input (EguiEvent.key a p) ≡ some e
      → egui_event_to_input (EguiEvent.key b q) ≡ some f
      → (macos_inject pos e ≡ macos_inject pos f)
        ⊎ (windows_inject numbers e ≡ windows_inject numbers f)
      → (a ≡ b) × (p ≡ q)
  keys_apart a b ha hb p q e f known known' ea fb alike =
      let (x, t) = typed a ha p known in
      let (y, u) = typed b hb q known' in
      let xe : x ≡ e = cc (sym t.sent ∙ ea) in
      let yf : y ≡ f = cc (sym u.sent ∙ fb) in
      elim alike [
        | inl mac ↦
            let calls : ◌≡◌ {A = List (MacEvent F)} (MacEvent.keyboard t.mac.found p ∷ [])
                (MacEvent.keyboard u.mac.found q ∷ []) =
              sym t.on_mac
              ∙ ap (macos_inject pos) xe
              ∙ mac
              ∙ ap (macos_inject pos) (sym yf)
              ∙ u.on_mac in
            (same_key _ a b ha hb t.mac u.mac (cc calls), cc calls)
        | inr win ↦
            let calls : ◌≡◌ {A = List (WinInput W)} (WinInput.keyboard t.win.found p ∷ [])
                (WinInput.keyboard u.win.found q ∷ []) =
              sym t.on_win
              ∙ ap (windows_inject numbers) xe
              ∙ win
              ∙ ap (windows_inject numbers) (sym yf)
              ∙ u.on_win in
            (same_key _ a b ha hb t.win u.win (cc calls), cc calls)
      ]

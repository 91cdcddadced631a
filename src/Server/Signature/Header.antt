-- ===== src/Server/Signature/Header.antt =====
-- The header of a signature as it is written: parts with commas between them.
use remotekvm.Base.{
  ℕ, ◌≡◌, refl, sym, ap, subst, ◌∙◌, List, [], ◌∷◌, ◌++◌, true, Option, none, some, ◌⊎◌, inl, inr,
  arith, ◌==◌, ==→eq, Bool-cases, Option-cases,
}
use remotekvm.Base.Bytes.{Bytes}
use remotekvm.Server.Signature.{
  ℤ, split, cons_head, split_once, parse_i64, Signatures, is_t, is_v1, read_pair, read_parts,
  read_header,
}

-- The parts with a separator between them.
unfoldable pub join : ℕ → List Bytes → Bytes
join sep [] = []
join sep (part ∷ []) = part
join sep (part ∷ next ∷ parts) = part ++ sep ∷ join sep (next ∷ parts)

pub data Mem (part : Bytes) : List Bytes → Type 0 where
  here : (parts : List Bytes) → Mem part (part ∷ parts)
  there : (other : Bytes) (parts : List Bytes) → Mem part parts → Mem part (other ∷ parts)

join-cons_head :
    (sep c : ℕ) (parts : List Bytes) → join sep (cons_head c parts) ≡ c ∷ join sep parts
unfolding join
join-cons_head sep c [] = refl
join-cons_head sep c (part ∷ []) = refl
join-cons_head sep c (part ∷ next ∷ parts) = refl

join-empty :
    (sep : ℕ) (text : Bytes) → join sep ([] ∷ split sep text) ≡ sep ∷ join sep (split sep text)
unfolding join split
join-empty sep [] = refl
join-empty sep (c ∷ text) = elim (Bool-cases (c == sep)) [
  | inl hit ↦ rw hit refl
  | inr miss ↦ rw miss (after_head (split sep text))
]
  where
    after_head :
        (parts : List Bytes)
        → join sep ([] ∷ cons_head c parts) ≡ sep ∷ join sep (cons_head c parts)
    after_head [] = refl
    after_head (part ∷ parts) = refl

-- What `split` cuts, the separator joins again.
pub join-split : (sep : ℕ) (text : Bytes) → join sep (split sep text) ≡ text
unfolding join split
join-split sep [] = refl
join-split sep (c ∷ text) = elim (Bool-cases (c == sep)) [
  | inl hit ↦ rw hit (
      join-empty sep text
      ∙ ap (λ xs. sep ∷ xs) (join-split sep text)
      ∙ ap (λ x. x ∷ text) (sym (==→eq c sep hit)))
  | inr miss ↦
      rw miss (join-cons_head sep c (split sep text) ∙ ap (λ xs. c ∷ xs) (join-split sep text))
]

pub split_once_lem :
    (sep : ℕ) (text key value : Bytes)
    → split_once sep text ≡ some (key, value)
    → text ≡ key ++ sep ∷ value
unfolding split_once
split_once_lem sep [] key value h = absurd (ground arith)
split_once_lem sep (c ∷ text) key value h = elim (Bool-cases (c == sep)) [
  | inl hit ↦
      let found : ([] ≡ key) × (text ≡ value) = ground arith in
      ap (λ x. x ∷ text) (==→eq c sep hit)
      ∙ ap (λ xs. sep ∷ xs) found.1
      ∙ ap (λ xs. xs ++ sep ∷ value) found.0
  | inr miss ↦ elim (Option-cases (split_once sep text)) [
    | inl nothing ↦ absurd (ground arith)
    | inr ((k, v), later) ↦
        let found : (c ∷ k ≡ key) × (v ≡ value) = ground arith in
        ap (λ xs. c ∷ xs) (split_once_lem sep text k v later)
        ∙ ap (λ xs. xs ++ sep ∷ v) found.0
        ∙ ap (λ xs. key ++ sep ∷ xs) found.1
  ]
]

-- `t=` and `v1=` with a value.
abbrev pub t_part : Bytes → Bytes
t_part value = b't' ∷ b'=' ∷ value

abbrev pub v1_part : Bytes → Bytes
v1_part value = b'v' ∷ b'1' ∷ b'=' ∷ value

is_t_lem : (key : Bytes) → is_t key ≡ true → key ≡ b't' ∷ []
is_t_lem [] h = absurd (ground arith)
is_t_lem (c ∷ []) h = ap (λ x. x ∷ []) (==→eq c b't' h)
is_t_lem (c ∷ d ∷ key) h = absurd (ground arith)

is_v1_lem : (key : Bytes) → is_v1 key ≡ true → key ≡ b'v' ∷ b'1' ∷ []
is_v1_lem [] h = absurd (ground arith)
is_v1_lem (c ∷ []) h = absurd (ground arith)
is_v1_lem (c ∷ d ∷ []) h =
    let first : (c == b'v') ≡ true = ground arith in
    let second : (d == b'1') ≡ true = ground arith in
    ap (λ x. x ∷ d ∷ []) (==→eq c b'v' first) ∙ ap (λ x. b'v' ∷ x ∷ []) (==→eq d b'1' second)
is_v1_lem (c ∷ d ∷ e ∷ key) h = absurd (ground arith)

Mem-last : (v w : Bytes) (xs : List Bytes) → Mem v (xs ++ w ∷ []) → Mem v xs ⊎ (v ≡ w)
Mem-last v _ [] (here _) = inr refl
Mem-last v w [] (there _ _ m) = elim m [ ]
Mem-last v w (_ ∷ xs) (here _) = inl (here xs)
Mem-last v w (x ∷ xs) (there _ _ m) = elim (Mem-last v w xs m) [
  | inl before ↦ inl (there x xs before)
  | inr last ↦ inr last
]

-- What was read stands in these parts.
pub record IsRead (parts : List Bytes) (sigs : Signatures) : Type 0 where
  pub stamp :
      (t : ℤ)
      → sigs.timestamp ≡ some t
      → (text : Bytes) × Mem (t_part text) parts × (parse_i64 text ≡ some t)
  pub values : (value : Bytes) → Mem value sigs.v1_sigs → Mem (v1_part value) parts

read_pair-IsRead :
    (all : List Bytes) (part : Bytes) (o : Option (Bytes × Bytes)) (sigs : Signatures)
    → split_once b'=' part ≡ o
    → Mem part all
    → IsRead all sigs
    → IsRead all (read_pair o sigs)
unfolding read_pair
read_pair-IsRead all part none sigs cut m r = r
read_pair-IsRead all part (some (key, value)) sigs cut m r = elim (Bool-cases (is_t key)) [
  | inl stamp ↦
      let is : part ≡ t_part value =
        split_once_lem b'=' part key value cut ∙ ap (λ k. k ++ b'=' ∷ value) (is_t_lem key stamp) in
      rw stamp (record {
        stamp = λ t parsed. (value, subst (λ p. Mem p all) is m, parsed);
        values = r.values;
      })
  | inr other ↦ elim (Bool-cases (is_v1 key)) [
    | inl v1 ↦
        let is : part ≡ v1_part value =
          split_once_lem b'=' part key value cut ∙ ap (λ k. k ++ b'=' ∷ value) (is_v1_lem key v1) in
        rw (other, v1)
          (record {
            stamp = r.stamp;
            values = λ v found. elim (Mem-last v value sigs.v1_sigs found) [
              | inl before ↦ r.values v before
              | inr last ↦ subst (λ p. Mem p all) (is ∙ ap v1_part (sym last)) m
            ];
          })
    | inr ignored ↦ rw (other, ignored) r
  ]
]

read_parts-IsRead :
    (all parts : List Bytes) (sigs : Signatures)
    → ((p : Bytes) → Mem p parts → Mem p all)
    → IsRead all sigs
    → IsRead all (read_parts parts sigs)
unfolding read_parts
read_parts-IsRead all [] sigs among r = r
read_parts-IsRead all (part ∷ parts) sigs among r =
    read_parts-IsRead all parts (read_pair (split_once b'=' part) sigs)
      (λ p m. among p (there part parts m))
      (read_pair-IsRead all part (split_once b'=' part) sigs refl (among part (here parts)) r)

pub read_header-IsRead : (header : Bytes) → IsRead (split b',' header) (read_header header)
unfolding read_header
read_header-IsRead header =
    read_parts-IsRead (split b',' header) (split b',' header) _ (λ p m. m)
      (record { stamp = λ t none_yet. absurd (ground arith); values = λ v m. elim m [ ] })

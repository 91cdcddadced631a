-- ===== src/Client/Auth/Reads.antt =====
-- The request line as it comes in, in whatever pieces.
use remotekvm.Base.{
  ℕ, zero, suc, ◌+◌, ◌-◌, ◌≤◌, ◌<◌, ◌≡◌, refl, sym, ap, subst, ◌∙◌, List, [], ◌∷◌, ◌++◌, append-nil,
  append_assoc, true, false, ◌||◌, some, arith, ◌==◌, ==→eq, any, take, drop, length, length-append,
  All, Bool-cases, inl, inr, ◌⊎◌, map,
}
use remotekvm.Base.Bytes.{Bytes}
use remotekvm.Base.Rows.{concat, take-append-drop}
use remotekvm.Server.Login.{same}
use remotekvm.Client.Auth.{buffer_size, received, read_request}

-- Of two ways to cut a text, one cut lies behind the other.
prefix-cases :
    (xs ys hs rs : Bytes)
    → xs ++ ys ≡ hs ++ rs
    → ((r : Bytes) × (xs ≡ hs ++ r)) ⊎ ((h : Bytes) × (hs ≡ xs ++ h))
prefix-cases xs ys [] rs e = inl (xs, refl)
prefix-cases [] ys (h ∷ hs) rs e = inr (h ∷ hs, refl)
prefix-cases (x ∷ xs) ys (h ∷ hs) rs e =
    let first : x ≡ h = ground arith in
    let others : xs ++ ys ≡ hs ++ rs = ground arith in
    elim (prefix-cases xs ys hs rs others) [
      | inl (r, cut) ↦ inl (r, ap (λ z. z ∷ xs) first ∙ ap (λ zs. h ∷ zs) cut)
      | inr (k, cut) ↦ inr (k, ap (λ z. z ∷ hs) (sym first) ∙ ap (λ zs. x ∷ zs) cut)
    ]

-- Not a line break.
abbrev pub InLine : ℕ → Type 0
InLine c = (c == 10) ≡ false

no_break : (xs hs : Bytes) → All InLine (xs ++ hs) → any (λ c. c == 10) xs ≡ false
no_break [] hs h = refl
no_break (x ∷ xs) hs h = let e = h.0 in ground (arith, no_break xs hs h.1)

take_whole : (n : ℕ) (xs : Bytes) → length (take n xs) < n → take n xs ≡ xs
take_whole zero xs h = absurd (omega arith)
take_whole (suc n) [] h = refl
take_whole (suc n) (x ∷ xs) h = ap (λ zs. x ∷ zs) (take_whole n xs (omega arith))

length-take-le : (n : ℕ) (xs : Bytes) → length (take n xs) ≤ n
length-take-le zero xs = omega arith
length-take-le (suc n) [] = omega arith
length-take-le (suc n) (x ∷ xs) = omega (arith, length-take-le n xs)

empty_rest : (xs h : Bytes) → length (xs ++ h) ≤ length xs → h ≡ []
empty_rest xs [] le = refl
empty_rest xs (c ∷ h) le = absurd (omega (arith, length-append xs (c ∷ h)))

abbrev pub IsSome : Bytes → Type 0
IsSome chunk = 0 < length chunk

something : (n : ℕ) (chunk : Bytes) → 0 < n → IsSome chunk → same (take n chunk) [] ≡ false
something zero chunk h some_byte = absurd (omega arith)
something (suc n) [] h some_byte = absurd (omega arith)
something (suc n) (c ∷ chunk) h some_byte = refl

-- The buffer was left before its end or a line break, and holds all that a shorter line begins with.
stop_early :
    (now more head rest : Bytes)
    → now ++ more ≡ head ++ rest
    → All InLine head
    → length head ≤ buffer_size
    → (any (λ c. c == 10) now || length now == buffer_size) ≡ true
    → (r : Bytes) × (now ≡ head ++ r)
stop_early now more head rest text line small stop = elim (prefix-cases now more head rest text) [
  | inl whole ↦ whole
  | inr (h, cut) ↦
      let unbroken : any (λ c. c == 10) now ≡ false =
        no_break now h (subst (All InLine) cut line) in
      let full : length now ≡ buffer_size = ==→eq (length now) buffer_size (ground arith) in
      let shorter : length (now ++ h) ≤ length now =
        subst (λ z. length z ≤ length now) cut (omega arith) in
      let none_left : h ≡ [] = empty_rest now h shorter in
      ([], sym (cut ∙ ap (λ z. now ++ z) none_left ∙ append-nil now) ∙ sym (append-nil head))
]

pub read_request_lem :
    (chunks : List Bytes) (filled head rest : Bytes)
    → filled ++ concat chunks ≡ head ++ rest
    → All InLine head
    → length head ≤ buffer_size
    → length filled < buffer_size
    → All IsSome chunks
    → (r : Bytes) × (read_request filled (map some chunks) ≡ some (head ++ r))
unfolding read_request concat
read_request_lem [] filled head rest text line small free all =
    (rest, ap some (sym (append-nil filled) ∙ text))
read_request_lem (chunk ∷ chunks) filled head rest text line small free all =
    let k = buffer_size - length filled in
    let n = received filled chunk in
    let more = drop k chunk ++ concat chunks in
    let read : same n [] ≡ false = something k chunk (omega arith) all.0 in
    let cut : (filled ++ n) ++ more ≡ head ++ rest =
      append_assoc filled n more
      ∙ ap (λ z. filled ++ z)
          (sym (append_assoc n (drop k chunk) (concat chunks))
            ∙ ap (λ z. z ++ concat chunks) (take-append-drop k chunk))
      ∙ text in
    elim (Bool-cases (any (λ c. c == 10) (filled ++ n) || length (filled ++ n) == buffer_size)) [
      | inl stop ↦
          let (r, e) = stop_early (filled ++ n) more head rest cut line small stop in
          (r, rw (read, stop) (ap some e))
      | inr go ↦
          let size : length (filled ++ n) ≡ length filled + length n = length-append filled n in
          let most = length-take-le k chunk in
          let differs : (length (filled ++ n) == buffer_size) ≡ false = ground arith in
          let short : length (filled ++ n) < buffer_size =
            below (length (filled ++ n)) (omega (arith, size, most)) differs in
          let all_of_it : n ≡ chunk = take_whole k chunk (omega (arith, size, short)) in
          let (r, e) =
            read_request_lem chunks (filled ++ n) head rest
              (ap (λ z. (filled ++ z) ++ concat chunks) all_of_it
                ∙ append_assoc filled chunk (concat chunks)
                ∙ text)
              line small short all.1 in
          (r, rw (read, go) e)
    ]
  where
    below : (m : ℕ) → m ≤ buffer_size → (m == buffer_size) ≡ false → m < buffer_size
    below m most other = ground arith

-- ===== src/Base/Grids.antt =====
-- What a loop appends that adds a row of the same length in each round, cell by cell.
use Prim.Native.Nat.{ℕ, zero, suc, ◌+◌, ◌*◌, ◌<◌}
use mathlib.Core.Path.{◌≡◌, refl, ap, ◌∙◌}
use mathlib.Core.List.{List, [], ◌∷◌, ◌++◌}
use mathlib.Core.Option.{Option, some}
use native.Mathlib.Omega.{arith}
use remotekvm.Base.Lists.{length, length-append}
use remotekvm.Base.Rows.{get_elem?, collect, get_elem?-append_left, get_elem?-append_right}

module _ {ℓ} {A : Type ℓ} where
  -- What a loop appends that panics in no round, in which each row has the same length.
  pub record IsGrid (out : List A) (rounds width : ℕ) (cell : ℕ → ℕ → Option A) : Type ℓ where
    pub size : length out ≡ rounds * width
    pub at : (r c : ℕ) → r < rounds → c < width → get_elem? out (r * width + c) ≡ cell r c

  append-IsGrid :
      (row rest : List A) (rounds width i : ℕ) (cell : ℕ → ℕ → Option A)
      → length row ≡ width
      → ((c : ℕ) → c < width → get_elem? row c ≡ cell i c)
      → IsGrid rest rounds width (λ r c. cell (suc i + r) c)
      → IsGrid (row ++ rest) (suc rounds) width (λ r c. cell (i + r) c)
  append-IsGrid row rest rounds width i cell e h g = record {
    size = omega (arith, length-append row rest, e, g.size, mul);
    at = at;
  }
    where
      mul : suc rounds * width ≡ width + rounds * width
      mul = grind arith

      at :
          (r c : ℕ)
          → r < suc rounds
          → c < width
          → get_elem? (row ++ rest) (r * width + c) ≡ cell (i + r) c
      at zero c hr hc =
          let index : 0 * width + c ≡ c = omega arith in
          let place : i + 0 ≡ i = omega arith in
          rw (index, place) (get_elem?-append_left row rest c (omega arith) ∙ h c hc)
      at (suc r) c hr hc =
          let index : suc r * width + c ≡ length row + (r * width + c) = rw e (grind arith) in
          let place : i + suc r ≡ suc i + r = omega arith in
          rw (index, place)
            (get_elem?-append_right row rest (r * width + c) ∙ g.at r c (omega arith) hc)

  pub collect-IsGrid :
      (rounds i width : ℕ) (body : ℕ → Option (List A)) (row : ℕ → List A) (cell : ℕ → ℕ → Option A)
      → ((r : ℕ) → r < i + rounds → body r ≡ some (row r))
      → ((r : ℕ) → r < i + rounds → length (row r) ≡ width)
      → ((r c : ℕ) → r < i + rounds → c < width → get_elem? (row r) c ≡ cell r c)
      → (out : List A) × (collect rounds i body ≡ some out)
        × IsGrid out rounds width (λ r c. cell (i + r) c)
  unfolding collect
  collect-IsGrid zero i width body row cell runs fits same =
      ([], refl, record { size = omega arith; at = λ r c hr hc. absurd (omega arith) })
  collect-IsGrid (suc rounds) i width body row cell runs fits same =
      let (out, e, g) =
        collect-IsGrid rounds (suc i) width body row cell (λ r h. runs r (omega arith))
          (λ r h. fits r (omega arith)) (λ r c h. same r c (omega arith)) in
      (
        row i ++ out,
        rw (runs i (omega arith), e) refl,
        append-IsGrid (row i) out rounds width i cell (fits i (omega arith))
            (λ c. same i c (omega arith)) g,
      )

  -- The same from round 0 on.
  pub collect_lem :
      (rounds width : ℕ) (body : ℕ → Option (List A)) (row : ℕ → List A) (cell : ℕ → ℕ → Option A)
      → ((r : ℕ) → r < rounds → body r ≡ some (row r))
      → ((r : ℕ) → r < rounds → length (row r) ≡ width)
      → ((r c : ℕ) → r < rounds → c < width → get_elem? (row r) c ≡ cell r c)
      → (out : List A) × (collect rounds 0 body ≡ some out) × IsGrid out rounds width cell
  collect_lem rounds width body row cell runs fits same =
      let (out, e, g) =
        collect-IsGrid rounds 0 width body row cell (λ r h. runs r (omega arith))
          (λ r h. fits r (omega arith)) (λ r c h. same r c (omega arith)) in
      (
        out,
        e,
        record {
          size = g.size;
          at = λ r c hr hc.
              let start : 0 + r ≡ r = omega arith in g.at r c hr hc ∙ ap (λ k. cell k c) start;
        },
      )

  -- One element in each round.
  pub collect_ones :
      (rounds : ℕ) (body : ℕ → Option (List A)) (value : ℕ → A)
      → ((r : ℕ) → r < rounds → body r ≡ some (value r ∷ []))
      → (out : List A) × (collect rounds 0 body ≡ some out)
        × (length out ≡ rounds)
        × ((r : ℕ) → r < rounds → get_elem? out r ≡ some (value r))
  collect_ones rounds body value runs =
      let (out, e, g) =
        collect_lem rounds 1 body (λ r. value r ∷ []) (λ r c. some (value r)) runs (λ r h. refl)
          cells in
      (
        out,
        e,
        omega (arith, g.size),
        λ r h. let place : r * 1 + 0 ≡ r = omega arith in rw place at (g.at r 0 h (omega arith)),
      )
    where
      cells : (r c : ℕ) → r < rounds → c < 1 → get_elem? (value r ∷ []) c ≡ some (value r)
      cells r zero hr hc = refl
      cells r (suc c) hr hc = absurd (omega arith)

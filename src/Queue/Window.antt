-- ===== src/Queue/Window.antt =====
-- The jobs that the ring holds from an index on, oldest first.
use schedi.Prelude.{
  ℕ, zero, suc, ◌+◌, ◌%◌, ◌<◌, ◌≤◌, ◌≡◌, ◌≢◌, sym, ◌∙◌, ap, Bool, true, Option, some, List, [], ◌∷◌,
  ◌++◌, length, arith,
}
use schedi.Queue.{dq_size, update}

abbrev pub Window : (ℕ → Option ℕ) → (ℕ → Bool) → ℕ → List ℕ → Type 0
Window buf ready t [] = Unit
Window buf ready t (j ∷ js) =
    (buf t ≡ some j) × (ready t ≡ true) × Window buf ready ((t + 1) % dq_size) js

-- A store at an index past the window leaves the window alone.
pub Window-update :
    (buf : ℕ → Option ℕ) (ready : ℕ → Bool) (t i d : ℕ) (js : List ℕ) (v : Option ℕ) (r : Bool)
    → t < dq_size
    → length js ≤ d
    → d < dq_size
    → i ≡ (t + d) % dq_size
    → Window buf ready t js
    → Window (update buf i v) (update ready i r) t js
Window-update buf ready t i d [] v r ht hl hd e w = tt
Window-update buf ready t i zero (j ∷ js) v r ht hl hd e w = absurd (omega arith)
Window-update buf ready t i (suc d) (j ∷ js) v r ht hl hd e w =
    let ne : i ≢ t = omega arith in
    (
      ground (arith, w.0),
      ground (arith, w.1),
      Window-update buf ready ((t + 1) % dq_size) i d js v r (omega arith) (omega arith)
          (omega arith) (omega arith) w.2,
    )

-- The job just past the window extends it.
pub Window-snoc :
    (buf : ℕ → Option ℕ) (ready : ℕ → Bool) (t i job : ℕ) (js : List ℕ)
    → t < dq_size
    → i ≡ (t + length js) % dq_size
    → buf i ≡ some job
    → ready i ≡ true
    → Window buf ready t js
    → Window buf ready t (js ++ (job ∷ []))
Window-snoc buf ready t i job [] ht e b r w =
    let at : i ≡ t = omega arith in (ap buf (sym at) ∙ b, ap ready (sym at) ∙ r, tt)
Window-snoc buf ready t i job (j ∷ js) ht e b r w = (
  w.0,
  w.1,
  Window-snoc buf ready ((t + 1) % dq_size) i job js (omega arith) (omega arith) b r w.2,
)

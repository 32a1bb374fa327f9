-- ===== src/Operator/Window/Refines/Runs.antt =====
-- Whole sequences of transmissions through advanceWindow, against the set of the numbers taken.
use so_ho_link.Base.{
  ℕ, ◌≡◌, refl, ap, Bool, true, false, List, [], ◌∷◌, Option, some, none, replicate, if◌then◌else◌,
}
use so_ho_link.Operator.Window.{advance_window}
use so_ho_link.Operator.Window.Refines.Seen.{
  is_fresh, Tracks, start-Tracks, Answers, advance-Answers,
}

-- The answer to one number, and the answers from the window that it leaves; a refused number leaves
-- the window as it was.
abbrev pub answer : (ℕ → List ℕ → List Bool) → ℕ → List ℕ → Option (ℕ × List ℕ) → List Bool
answer rest high w none = false ∷ rest high w
answer rest high w (some (high', w')) = true ∷ rest high' w'

pub run_window : ℕ → List ℕ → List ℕ → List Bool
run_window high w [] = []
run_window high w (seq ∷ seqs) =
    answer (λ h v. run_window h v seqs) high w (advance_window high w seq)

-- The answers of the set.
abbrev pub run_set : List ℕ → List ℕ → List Bool
run_set seen [] = []
run_set seen (seq ∷ seqs) =
    let kept = run_set seen seqs in
    let taken = run_set (seq ∷ seen) seqs in
    if is_fresh seen seq then true ∷ taken else false ∷ kept

answer_lem :
    (rest : ℕ → List ℕ → List Bool) (seen : List ℕ) (high : ℕ) (w : List ℕ) (seq : ℕ)
    (seqs : List ℕ) (o : Option (ℕ × List ℕ))
    → ((s : List ℕ) (h : ℕ) (v : List ℕ) → Tracks s h v → rest h v ≡ run_set s seqs)
    → Tracks seen high w
    → Answers seen seq o
    → answer rest high w o ≡ run_set seen (seq ∷ seqs)
answer_lem rest seen high w seq seqs none k t h = rw h (ap (λ bs. false ∷ bs) (k seen high w t))
answer_lem rest seen high w seq seqs (some (high', w')) k t h =
    rw h.0 (ap (λ bs. true ∷ bs) (k (seq ∷ seen) high' w' h.1))

run_window_from :
    (seqs seen : List ℕ) (high : ℕ) (w : List ℕ)
    → Tracks seen high w
    → run_window high w seqs ≡ run_set seen seqs
unfolding run_window
run_window_from [] seen high w t = refl
run_window_from (seq ∷ seqs) seen high w t =
    answer_lem (λ h v. run_window h v seqs) seen high w seq seqs (advance_window high w seq)
      (λ s h v. run_window_from seqs s h v) t (advance-Answers seen t seq)

-- From the row's default on, the answers of the 256-bit window are those of the set.
pub run_window-run_set : (seqs : List ℕ) → run_window 0 (replicate 32 0) seqs ≡ run_set [] seqs
run_window-run_set seqs = run_window_from seqs [] 0 (replicate 32 0) start-Tracks

-- ===== src/Timeout/Polls.antt =====
-- Histories of polls of the futures and bodies of src/client/layer/timeout.
use wreq.Base.{ℕ, Bool, true, false, ◌&&◌, List, [], ◌∷◌}
use wreq.Base.Results.{Poll, waiting, ready}

abbrev pub is_waiting : {A : Type 0} → Poll A → Bool
is_waiting waiting = true
is_waiting (ready f) = false

-- The answers of a body that is polled at these instants.
abbrev pub polls : {B F : Type 0} → (ℕ → B → F × B) → B → List ℕ → List F
polls poll b [] = []
polls poll b (t ∷ ts) = (poll t b).0 ∷ polls poll (poll t b).1 ts

abbrev pub after : {B F : Type 0} → (ℕ → B → F × B) → B → List ℕ → B
after poll b [] = b
after poll b (t ∷ ts) = after poll (poll t b).1 ts

abbrev pub all_waiting : {A : Type 0} → List (Poll A) → Bool
all_waiting [] = true
all_waiting (f ∷ fs) = is_waiting f && all_waiting fs

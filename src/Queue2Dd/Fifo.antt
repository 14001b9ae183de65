-- ===== src/Queue2Dd/Fifo.antt =====
-- The history of the queue: what every lane holds after it, as a queue, and the values of a stretch of
-- a lane.
use elastic_2d_relaxation.Prelude.{
  ℕ, zero, suc, ◌+◌, ◌≤◌, ◌<◌, ◌≡◌, ◌≢◌, refl, ap, ◌∙◌, length, List, [], ◌∷◌, ◌++◌, if◌then◌else◌,
  ◌==◌, arith,
}
use elastic_2d_relaxation.Linked.{Node, tail}
use elastic_2d_relaxation.Queue2Dd.{Event, enqueued, dequeued, empty}

-- What every lane holds after the calls of a history, the last call first.
unfoldable pub contents : List Event → ℕ → List ℕ
contents [] i = []
contents (enqueued lane val ∷ log) i =
    let rest = contents log i in if lane == i then rest ++ (val ∷ []) else rest
contents (dequeued lane val ∷ log) i =
    let rest = contents log i in if lane == i then tail rest else rest
contents (empty ∷ log) i = contents log i

-- Every dequeue returned what was in front of its lane: the lanes are queues.
abbrev pub Legal : ℕ → List Event → Type 0
Legal width [] = Unit
Legal width (enqueued lane val ∷ log) = (lane < width) × Legal width log
Legal width (dequeued lane val ∷ log) =
    (lane < width) × (contents log lane ≡ val ∷ tail (contents log lane)) × Legal width log
Legal width (empty ∷ log) = Legal width log

abbrev pub enqueues : List Event → ℕ
enqueues [] = 0
enqueues (enqueued _ _ ∷ log) = suc (enqueues log)
enqueues (_ ∷ log) = enqueues log

abbrev pub dequeues : List Event → ℕ
dequeues [] = 0
dequeues (dequeued _ _ ∷ log) = suc (dequeues log)
dequeues (_ ∷ log) = dequeues log

-- The `n` values of `f` from `a` on.
unfoldable pub stretch : (ℕ → ℕ) → (a n : ℕ) → List ℕ
stretch f a zero = []
stretch f a (suc n) = f a ∷ stretch f (suc a) n

pub stretch-snoc : (f : ℕ → ℕ) (a n : ℕ) → stretch f a (suc n) ≡ stretch f a n ++ (f (a + n) ∷ [])
unfolding stretch
stretch-snoc f a zero = ap (λ (x : ℕ). f x ∷ []) (omega arith)
stretch-snoc f a (suc n) =
    ap (λ (vs : List ℕ). f a ∷ vs)
      (stretch-snoc f (suc a) n ∙ ap (λ (x : ℕ). stretch f (suc a) n ++ (f x ∷ [])) (omega arith))

pub stretch-ext :
    (f g : ℕ → ℕ) (a n : ℕ)
    → ((k : ℕ) → a ≤ k → k < a + n → f k ≡ g k)
    → stretch f a n ≡ stretch g a n
unfolding stretch
stretch-ext f g a zero same = refl
stretch-ext f g a (suc n) same =
    ap (λ (x : ℕ). x ∷ stretch f (suc a) n) (same a (omega arith) (omega arith))
    ∙ ap (λ (vs : List ℕ). g a ∷ vs)
        (stretch-ext f g (suc a) n (λ k p q. same k (omega arith) (omega arith)))

pub length-stretch : (f : ℕ → ℕ) (a n : ℕ) → length (stretch f a n) ≡ n
unfolding stretch
length-stretch f a zero = refl
length-stretch f a (suc n) = ap suc (length-stretch f (suc a) n)

-- From `p` on, whose own value does not count, the `next` pointers lead through nodes with the values
-- `vs` to the last node.
abbrev pub Leads : (ℕ → Node) → ℕ → List ℕ → Type 0
Leads nodes p [] = (nodes p).next ≡ 0
Leads nodes p (v ∷ vs) =
    ((nodes p).next ≢ 0) × ((nodes (nodes p).next).val ≡ v) × Leads nodes (nodes p).next vs

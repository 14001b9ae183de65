-- ===== src/Window2Dd/Solo.antt =====
-- A thread that runs alone inside `put_window` of include/2Dd-window.c.
use elastic_2d_relaxation.Prelude.{ℕ, suc, ◌≤◌, ◌≡◌, refl, some, List, [], ◌∷◌, arith, length}
use elastic_2d_relaxation.Search.{Config, Place}
use elastic_2d_relaxation.Window2Dd.Put.{done, PutWindow, returned, put_window}

module _ {D : Type 0} (put_count : D → ℕ) (tear : D → D → D) (cfg : Config) (lanes : ℕ → D) where
  -- Steps of one thread, with the random numbers `choices`, while the lanes stay as they are.
  unfoldable pub solo : List ℕ → ℕ → PutWindow D → ℕ × PutWindow D
  unfolding put_window
  solo [] global w = (global, w)
  solo (c ∷ choices) global w =
      let (global', w') = put_window put_count tear cfg c lanes global w in solo choices global' w'

  -- The call has returned after `k` steps, whatever the random numbers are.
  pub record Finishes (k global : ℕ) (w : PutWindow D) : Type 0 where
    pub ends :
        (choices : List ℕ)
        → k ≤ length choices
        → (d : D) × (returned (solo choices global w).1.pc ≡ some d)

  pub weaken :
      {k n global : ℕ} {w : PutWindow D} → k ≤ n → Finishes k global w → Finishes n global w
  weaken le f = record { ends = λ choices l. f.ends choices (omega arith) }

  stays :
      (global : ℕ) (place : Place) (max : ℕ) (d : D) (choices : List ℕ)
      → returned (solo choices global (record { place = place; max = max; pc = done d })).1.pc
        ≡ some d
  unfolding solo
  stays global place max d [] = refl
  stays global place max d (c ∷ choices) = stays global place max d choices

  pub finished :
      {global : ℕ} (place : Place) (max : ℕ) (d : D)
      → Finishes 0 global (record { place = place; max = max; pc = done d })
  finished {global} place max d = record {
    ends = λ choices l. (d, stays global place max d choices);
  }

  pub next :
      {k global : ℕ} {w : PutWindow D}
      → ((c : ℕ)
          → let (global', w') = put_window put_count tear cfg c lanes global w in
            Finishes k global' w')
      → Finishes (suc k) global w
  next {k} {global} {w} f = record { ends = go }
    where
      go :
          (choices : List ℕ)
          → suc k ≤ length choices
          → (d : D) × (returned (solo choices global w).1.pc ≡ some d)
      go [] l = absurd (omega arith)
      go (c ∷ choices) l = unfold solo in (f c).ends choices (omega arith)

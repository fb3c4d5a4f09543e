-- ===== src/Configuration/Files/Laws.antt =====
-- internal/ems/configuration/store.go: what the calls of package os are relied on for, and what
-- the writing of one file then does.
use lte_element_manager.Prelude.{
  ℕ, ◌&&◌, ◌≤◌, ◌<◌, ◌≡◌, refl, ◌∙◌, subst, Bool, true, false, Option, none, some, if◌then◌else◌,
  ◌==◌, nat_eq, arith, inl, inr, Bool-cases, Option-cases,
}
use lte_element_manager.Prelude.Int.{ℤ, pos, leb_ℤ}
use lte_element_manager.Configuration.Files.{
  File, file_eq, Os, Stat, go_on, and_with, discard, chown_like, close_temp, sync_temp, chmod_temp,
  put_temp, fill_temp, write_temp_sibling, atomic_write, mode_of,
}

module _ {W B : Type 0} (os : Os W B) where
  -- No configuration file changes, nor any temporary file made before.
  pub record Quiet (w w' : W) : Type 0 where
    pub same_content : (f : File) → os.content f w' ≡ os.content f w
    pub same_bytes : (k : ℕ) → k < os.made w → os.bytes k w' ≡ os.bytes k w
    pub more_made : os.made w ≤ os.made w'

  pub record IsPosix : Type 0 where
    pub read_quiet : (f : File) (w : W) → Quiet w (os.read f w).0
    pub read_content : (f : File) (w : W) (bs : B) → (os.read f w).1 ≡ some bs → bs ≡ os.content f w
    pub stat_quiet : (f : File) (w : W) → Quiet w (os.stat f w).0
    pub create_quiet : (f : File) (w : W) → Quiet w (os.create_temp f w).0
    pub create_fresh :
        (f : File) (w : W) (n : ℕ)
        → (os.create_temp f w).1 ≡ some n
        → (os.made w ≤ n) × (n < os.made (os.create_temp f w).0)
    pub chown_quiet : (n : ℕ) (u g : ℤ) (w : W) → Quiet w (os.chown n u g w).0
    pub chmod_quiet : (n m : ℕ) (w : W) → Quiet w (os.chmod n m w).0
    pub sync_quiet : (n : ℕ) (w : W) → Quiet w (os.sync n w).0
    pub close_quiet : (n : ℕ) (w : W) → Quiet w (os.close n w).0
    pub remove_quiet : (n : ℕ) (w : W) → Quiet w (os.remove n w).0
    pub write_content :
        (n : ℕ) (bs : B) (f : File) (w : W) → os.content f (os.write n bs w).0 ≡ os.content f w
    pub write_others :
        (n k : ℕ) (bs : B) (w : W)
        → (k == n) ≡ false
        → os.bytes k (os.write n bs w).0 ≡ os.bytes k w
    pub write_made : (n : ℕ) (bs : B) (w : W) → os.made w ≤ os.made (os.write n bs w).0
    pub write_bytes :
        (n : ℕ) (bs : B) (w : W) → (os.write n bs w).1 ≡ true → os.bytes n (os.write n bs w).0 ≡ bs
    pub rename_content :
        (n : ℕ) (f g : File) (w : W)
        → os.content g (os.rename n f w).0 ≡ (
            if (os.rename n f w).1
            then (if f == g then os.bytes n w else os.content g w)
            else os.content g w)
    pub rename_bytes : (n k : ℕ) (f : File) (w : W) → os.bytes k (os.rename n f w).0 ≡ os.bytes k w
    pub rename_made : (n : ℕ) (f : File) (w : W) → os.made w ≤ os.made (os.rename n f w).0

  pub Quiet-refl : (w : W) → Quiet w w
  Quiet-refl w = record {
    same_content = λ f. refl;
    same_bytes = λ k h. refl;
    more_made = omega arith;
  }

  pub Quiet-trans : (w v u : W) → Quiet w v → Quiet v u → Quiet w u
  Quiet-trans w v u p q = record {
    same_content = λ f. q.same_content f ∙ p.same_content f;
    same_bytes = λ k h. q.same_bytes k (omega (arith, p.more_made)) ∙ p.same_bytes k h;
    more_made = omega (arith, p.more_made, q.more_made);
  }

pub go_on-elim :
    {W A : Type 0} (P : W × Option A → Type 0) (q : W × Bool) (fails next : W → W × Option A)
    → (q.1 ≡ false → P (fails q.0))
    → (q.1 ≡ true → P (next q.0))
    → P (go_on q fails next)
go_on-elim P (w, false) fails next f g = f refl
go_on-elim P (w, true) fails next f g = g refl

pub and_with-elim :
    {W A B : Type 0} (P : W × Option B → Type 0) (q : W × Option A) (fails : W → W × Option B)
    (next : A → W → W × Option B)
    → (q.1 ≡ none → P (fails q.0))
    → ((a : A) → q.1 ≡ some a → P (next a q.0))
    → P (and_with q fails next)
and_with-elim P (w, none) fails next f g = f refl
and_with-elim P (w, some a) fails next f g = g a refl

module _ {W B : Type 0} (os : Os W B) (posix : IsPosix os) where
  -- A temporary file made since a time, and the bytes it was given.
  abbrev pub IsTemp : W → B → W → ℕ → Type 0
  IsTemp w bs w' n = (os.made w ≤ n) × (n < os.made w') × (os.bytes n w' ≡ bs)

  abbrev pub Gives : W → B → W → Option ℕ → Type 0
  Gives w bs w' none = Unit {0}
  Gives w bs w' (some n) = IsTemp w bs w' n

  abbrev pub Wrote : W → B → W × Option ℕ → Type 0
  Wrote w bs q = Quiet os w q.0 × Gives w bs q.0 q.1

  discard-Wrote : (w v : W) (bs : B) (n : ℕ) → Quiet os w v → Wrote w bs (discard os n v)
  unfolding discard
  discard-Wrote w v bs n q =
      let v1 = (os.close n v).0 in
      (
        Quiet-trans os w v1 (os.remove n v1).0 (Quiet-trans os w v v1 q (posix.close_quiet n v))
            (posix.remove_quiet n v1),
        tt,
      )

  chown-Quiet : (n : ℕ) (st : Option Stat) (w : W) → Quiet os w (chown_like os n st w).0
  chown-Quiet n none w = Quiet-refl os w
  chown-Quiet n (some st) w = elim (Bool-cases (leb_ℤ (pos 0) st.uid && leb_ℤ (pos 0) st.gid)) [
    | inl b ↦ rw b (posix.chown_quiet n st.uid st.gid w)
    | inr b ↦ rw b (Quiet-refl os w)
  ]

  write-Quiet :
      (w v : W) (bs : B) (n : ℕ) → Quiet os w v → os.made w ≤ n → Quiet os w (os.write n bs v).0
  write-Quiet w v bs n q m = record {
    same_content = λ f. posix.write_content n bs f v ∙ q.same_content f;
    same_bytes = λ k h. posix.write_others n k bs v (ground (arith, h, m)) ∙ q.same_bytes k h;
    more_made = omega (arith, q.more_made, posix.write_made n bs v);
  }

  -- A quiet call keeps a temporary file.
  keep-IsTemp : (w v u : W) (bs : B) (n : ℕ) → Quiet os v u → IsTemp w bs v n → IsTemp w bs u n
  keep-IsTemp w v u bs n q (m, l, b) = (m, omega (arith, q.more_made), q.same_bytes n l ∙ b)

  close_temp-Wrote :
      (w v : W) (bs : B) (n : ℕ) → Quiet os w v → IsTemp w bs v n → Wrote w bs (close_temp os n v)
  unfolding close_temp
  close_temp-Wrote w v bs n q t =
      let u = (os.close n v).0 in
      let k : Quiet os v u = posix.close_quiet n v in
      go_on-elim (Wrote w bs) (os.close n v) (λ w. ((os.remove n w).0, none)) (λ w. (w, some n))
        (λ e. (
          Quiet-trans os w u (os.remove n u).0 (Quiet-trans os w v u q k) (posix.remove_quiet n u),
          tt,
        ))
        (λ e. (Quiet-trans os w v u q k, keep-IsTemp w v u bs n k t))

  sync_temp-Wrote :
      (w v : W) (bs : B) (n : ℕ) → Quiet os w v → IsTemp w bs v n → Wrote w bs (sync_temp os n v)
  unfolding sync_temp
  sync_temp-Wrote w v bs n q t =
      let u = (os.sync n v).0 in
      let k : Quiet os v u = posix.sync_quiet n v in
      let q' : Quiet os w u = Quiet-trans os w v u q k in
      go_on-elim (Wrote w bs) (os.sync n v) (discard os n) (close_temp os n)
        (λ e. discard-Wrote w u bs n q')
        (λ e. close_temp-Wrote w u bs n q' (keep-IsTemp w v u bs n k t))

  chmod_temp-Wrote :
      (w v : W) (st : Option Stat) (bs : B) (n : ℕ)
      → Quiet os w v
      → IsTemp w bs v n
      → Wrote w bs (chmod_temp os st n v)
  unfolding chmod_temp
  chmod_temp-Wrote w v st bs n q t =
      let u = (os.chmod n (mode_of st) v).0 in
      let k : Quiet os v u = posix.chmod_quiet n (mode_of st) v in
      let q' : Quiet os w u = Quiet-trans os w v u q k in
      go_on-elim (Wrote w bs) (os.chmod n (mode_of st) v) (discard os n) (sync_temp os n)
        (λ e. discard-Wrote w u bs n q')
        (λ e. sync_temp-Wrote w u bs n q' (keep-IsTemp w v u bs n k t))

  put_temp-Wrote :
      (w v : W) (st : Option Stat) (bs : B) (n : ℕ)
      → Quiet os w v
      → os.made w ≤ n
      → n < os.made v
      → Wrote w bs (put_temp os st bs n v)
  unfolding put_temp
  put_temp-Wrote w v st bs n q m l =
      let u = (os.write n bs v).0 in
      let q' : Quiet os w u = write-Quiet w v bs n q m in
      go_on-elim (Wrote w bs) (os.write n bs v) (discard os n) (chmod_temp os st n)
        (λ e. discard-Wrote w u bs n q')
        (λ e.
          chmod_temp-Wrote w u st bs n q'
            (m, omega (arith, posix.write_made n bs v), posix.write_bytes n bs v e))

  fill_temp-Wrote :
      (w v : W) (st : Option Stat) (bs : B) (n : ℕ)
      → Quiet os w v
      → os.made w ≤ n
      → n < os.made v
      → Wrote w bs (fill_temp os st bs n v)
  unfolding fill_temp
  fill_temp-Wrote w v st bs n q m l =
      let u = (chown_like os n st v).0 in
      let k : Quiet os v u = chown-Quiet n st v in
      let q' : Quiet os w u = Quiet-trans os w v u q k in
      go_on-elim (Wrote w bs) (chown_like os n st v) (discard os n) (put_temp os st bs n)
        (λ e. discard-Wrote w u bs n q')
        (λ e. put_temp-Wrote w u st bs n q' m (omega (arith, l, k.more_made)))

  -- Writing a temporary file disturbs nothing, and on success the file holds the bytes.
  pub write_temp-Wrote : (f : File) (bs : B) (w : W) → Wrote w bs (write_temp_sibling os f bs w)
  unfolding write_temp_sibling
  write_temp-Wrote f bs w =
      let w1 = (os.stat f w).0 in
      let q1 : Quiet os w w1 = posix.stat_quiet f w in
      let w2 = (os.create_temp f w1).0 in
      let q2 : Quiet os w w2 = Quiet-trans os w w1 w2 q1 (posix.create_quiet f w1) in
      and_with-elim (Wrote w bs) (os.create_temp f w1) (λ w. (w, none))
        (fill_temp os (os.stat f w).1 bs) (λ e. (q2, tt))
        (λ n e.
          let (a, b) = posix.create_fresh f w1 n e in
          fill_temp-Wrote w w2 (os.stat f w).1 bs n q2 (omega (arith, a, q1.more_made)) b)

  abbrev pub Writes : W → File → B → W × Bool → Type 0
  Writes w f bs q =
      (g : File)
      → os.content g q.0 ≡ (if q.1 then (if f == g then bs else os.content g w) else os.content g w)

  -- `atomicWrite` replaces the content of its file or changes nothing.
  pub atomic_write-Writes : (f : File) (bs : B) (w : W) → Writes w f bs (atomic_write os f bs w)
  unfolding atomic_write
  atomic_write-Writes f bs w g =
      let w1 = (write_temp_sibling os f bs w).0 in
      let wrote : Wrote w bs (write_temp_sibling os f bs w) = write_temp-Wrote f bs w in
      let same = wrote.0.same_content g in
      elim (Option-cases (write_temp_sibling os f bs w).1) [
        | inl e ↦ rw (e, atomic_write) same
        | inr (n, e) ↦
            let t : IsTemp w bs w1 n = subst (Gives w bs w1) e wrote.1 in
            let w2 = (os.rename n f w1).0 in
            let c = posix.rename_content n f g w1 in
            elim (Bool-cases (os.rename n f w1).1) [
              | inl d ↦ rw (e, d, atomic_write) (c ∙ rw (d, t.2, same) refl)
              | inr d ↦
                  rw (e, d, atomic_write)
                    ((posix.remove_quiet n w2).same_content g ∙ c ∙ rw (d, same) refl)
            ]
      ]

-- ===== src/Configuration/Files.antt =====
-- internal/ems/configuration/store.go: the configuration files and the writing of them. The
-- operating system is an interface: each call takes its state on and may fail; `rename` is
-- `renameAtomic`, of which the sync of the directory is best effort. `content`, `bytes`
-- and `made` are views of that state for the theorems: what a configuration file holds, what was
-- written into a temporary file, and how many of these were made. A temporary file keeps its
-- number, and its bytes as far as the views go, when it is renamed or removed.
pub mod Laws
use lte_element_manager.Prelude.{
  ℕ, suc, ◌+◌, ◌≤◌, ◌<◌, ◌≡◌, ◌↔◌, refl, String, Bool, true, false, not, ◌&&◌, ◌||◌, Option, none,
  some, List, [], ◌∷◌, ◌++◌, if◌then◌else◌, ◌==◌, Eq, nat_beq, arith,
}
use lte_element_manager.Prelude.Int.{ℤ, pos, negsuc, leb_ℤ}
use lte_element_manager.Prelude.Map.{Map, lookup}

pub data File : Type 0 where
  enb_file rr_file sib_file rb_file : File

abbrev pub file_rank : File → ℕ
file_rank enb_file = 0
file_rank rr_file = 1
file_rank sib_file = 2
file_rank rb_file = 3

abbrev pub file_beq : File → File → Bool
file_beq f g = nat_beq (file_rank f) (file_rank g)

pub file_beq_iff : (f g : File) → (file_beq f g ≡ true) ↔ (f ≡ g)
file_beq_iff f g = ground arith

instance abbrev pub file_eq : Eq File
file_eq = record { beq = file_beq; beq_iff = file_beq_iff }

pub record Stat : Type 0 where
  pub mode : ℕ
  pub uid : ℤ
  pub gid : ℤ

-- The calls of package os; `false` is an error. An EPERM of `chown` is no error here.
pub record Os (W B : Type 0) : Type 0 where
  pub read : File → W → W × Option B
  pub stat : File → W → W × Option Stat
  pub create_temp : File → W → W × Option ℕ
  pub chown : ℕ → ℤ → ℤ → W → W × Bool
  pub write : ℕ → B → W → W × Bool
  pub chmod : ℕ → ℕ → W → W × Bool
  pub sync : ℕ → W → W × Bool
  pub close : ℕ → W → W × Bool
  pub remove : ℕ → W → W × Bool
  pub rename : ℕ → File → W → W × Bool
  pub content : File → W → B
  pub bytes : ℕ → W → B
  pub made : W → ℕ

abbrev pub mode_of : Option Stat → ℕ
mode_of none = 0o644
mode_of (some st) = st.mode

-- `if !ok { ...; return err }`
abbrev pub go_on :
    {W A : Type 0} → W × Bool → (W → W × Option A) → (W → W × Option A) → W × Option A
go_on (w, false) fails next = fails w
go_on (w, true) fails next = next w

abbrev pub and_with :
    {W A B : Type 0} → W × Option A → (W → W × Option B) → (A → W → W × Option B) → W × Option B
and_with (w, none) fails next = fails w
and_with (w, some a) fails next = next a w

module _ {W B : Type 0} (os : Os W B) where
  -- `tmp.Close(); os.Remove(tmpName)`
  unfoldable pub discard : ℕ → W → W × Option ℕ
  discard n w = ((os.remove n (os.close n w).0).0, none)

  abbrev pub chown_like : ℕ → Option Stat → W → W × Bool
  chown_like n none w = (w, true)
  chown_like n (some st) w =
      if leb_ℤ (pos 0) st.uid && leb_ℤ (pos 0) st.gid then os.chown n st.uid st.gid w else (w, true)

  -- The steps of `writeTempSibling` on the file it has created: chown, write, chmod, sync, close.
  unfoldable pub close_temp : ℕ → W → W × Option ℕ
  close_temp n w = go_on (os.close n w) (λ w. ((os.remove n w).0, none)) (λ w. (w, some n))

  unfoldable pub sync_temp : ℕ → W → W × Option ℕ
  sync_temp n w = go_on (os.sync n w) (discard n) (close_temp n)

  unfoldable pub chmod_temp : Option Stat → ℕ → W → W × Option ℕ
  chmod_temp st n w = go_on (os.chmod n (mode_of st) w) (discard n) (sync_temp n)

  unfoldable pub put_temp : Option Stat → B → ℕ → W → W × Option ℕ
  put_temp st bs n w = go_on (os.write n bs w) (discard n) (chmod_temp st n)

  unfoldable pub fill_temp : Option Stat → B → ℕ → W → W × Option ℕ
  unfolding discard close_temp sync_temp chmod_temp put_temp
  fill_temp st bs n w = go_on (chown_like n st w) (discard n) (put_temp st bs n)

  -- `writeTempSibling`
  unfoldable pub write_temp_sibling : File → B → W → W × Option ℕ
  write_temp_sibling f bs w =
      let (w1, st) = os.stat f w in
      and_with (os.create_temp f w1) (λ w. (w, none)) (fill_temp st bs)

  -- `atomicWrite`
  unfoldable pub atomic_write : File → B → W → W × Bool
  atomic_write f bs w =
      let (w1, tmp) = write_temp_sibling f bs w in
      elim tmp [
        | none ↦ (w1, false)
        | some n ↦
            let (w2, done) = os.rename n f w1 in
            if done then (w2, true) else ((os.remove n w2).0, false)
      ]

  -- `cleanupStagedFiles`; its error is not used.
  unfoldable pub cleanup_staged_files : List (File × ℕ) → W → W
  cleanup_staged_files [] w = w
  cleanup_staged_files ((f, n) ∷ staged) w = cleanup_staged_files staged (os.remove n w).0

  -- `commitStagedFiles`; `applied` is the last first.
  unfoldable pub commit_staged_files : List (File × ℕ) → List (File × ℕ) → W → W × Bool
  commit_staged_files applied [] w = (w, true)
  commit_staged_files applied ((f, n) ∷ staged) w =
      let (w1, done) = os.rename n f w in
      elim done [
        | false ↦ (cleanup_staged_files applied w1, false)
        | true ↦ commit_staged_files ((f, n) ∷ applied) staged w1
      ]

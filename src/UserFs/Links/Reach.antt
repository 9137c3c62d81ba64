-- ===== src/UserFs/Links/Reach.antt =====
-- hw3/userfs.c: the states that calls lead to.
use mathlib.Core.Path.{subst}
use system_programming_hw.Base.{ℕ, ◌≡◌, refl, Option, Bytes, ok}
use system_programming_hw.UserFs.Block.{Cells}
use system_programming_hw.UserFs.State.{Fs, Call, initial, deref}
use system_programming_hw.UserFs.Open.{ufs_open}
use system_programming_hw.UserFs.Transfer.{ufs_write, ufs_read}
use system_programming_hw.UserFs.Close.{ufs_close, ufs_delete, ufs_destroy}
use system_programming_hw.UserFs.Resize.{ufs_resize}
use system_programming_hw.UserFs.Links.{IsLinked, Keeps, KeepsIfOk}
use system_programming_hw.UserFs.Links.Calls.{ufs_close-Keeps, ufs_read-Keeps}
use system_programming_hw.UserFs.Links.Opening.{ufs_open-Keeps}
use system_programming_hw.UserFs.Links.Changes.{
  ufs_delete-Keeps, ufs_write-KeepsIfOk, ufs_resize-KeepsIfOk,
}

-- One call that returns, with a value or with -1.
pub data Step : Fs → Fs → Type 0 where
  opens :
      {fs fs' : Fs} (name : Bytes) (flags : ℕ) (r : Option ℕ)
      → ufs_open name flags fs ≡ ok (r, fs')
      → Step fs fs'
  writes :
      {fs fs' : Fs} (fd : ℕ) (buf : Cells) (r : Option ℕ)
      → ufs_write fd buf fs ≡ ok (r, fs')
      → Step fs fs'
  reads :
      {fs fs' : Fs} (fd size : ℕ) (r : Option Cells)
      → ufs_read fd size fs ≡ ok (r, fs')
      → Step fs fs'
  closes : {fs fs' : Fs} (fd : ℕ) (r : Option ℕ) → ufs_close fd fs ≡ ok (r, fs') → Step fs fs'
  deletes :
      {fs fs' : Fs} (name : Bytes) (r : Option ℕ) → ufs_delete name fs ≡ ok (r, fs') → Step fs fs'
  resizes :
      {fs fs' : Fs} (fd new_size : ℕ) (r : Option ℕ)
      → ufs_resize fd new_size fs ≡ ok (r, fs')
      → Step fs fs'
  destroys : {fs : Fs} → Step fs (ufs_destroy fs)

-- The states after any number of calls.
pub data Reachable : Fs → Type 0 where
  start : Reachable initial
  after : {fs fs' : Fs} → Reachable fs → Step fs fs' → Reachable fs'

returned :
    {A : Type 0} {fs : Fs} {r : Option A} {c : Call A} → c ≡ ok (r, fs) → Keeps c → IsLinked fs
returned e h = subst Keeps e h

returned_ok :
    {A : Type 0} {fs : Fs} {r : Option A} {c : Call A} → c ≡ ok (r, fs) → KeepsIfOk c → IsLinked fs
returned_ok e h = subst KeepsIfOk e h

Step-IsLinked : {fs fs' : Fs} → Step fs fs' → IsLinked fs → IsLinked fs'
Step-IsLinked (opens {fs} name flags r e) h = returned e (ufs_open-Keeps fs name flags h)
Step-IsLinked (writes {fs} fd buf r e) h = returned_ok e (ufs_write-KeepsIfOk fs fd buf h)
Step-IsLinked (reads {fs} fd size r e) h = returned e (ufs_read-Keeps fs fd size h)
Step-IsLinked (closes {fs} fd r e) h = returned e (ufs_close-Keeps fs fd h)
Step-IsLinked (deletes {fs} name r e) h = returned e (ufs_delete-Keeps fs name h)
Step-IsLinked (resizes {fs} fd new_size r e) h =
    returned_ok e (ufs_resize-KeepsIfOk fs fd new_size h)
Step-IsLinked (destroys {fs}) h =
    unfold ufs_destroy deref in
    record {
      files_linked = record {
        apart = tt;
        fresh = λ p le. refl;
        ghosts = λ p f e dead. absurd (cc e);
        counted = λ p. refl;
      };
      used_is = refl;
    }

initial-IsLinked : IsLinked initial
unfolding initial deref
initial-IsLinked = record {
  files_linked = record {
    apart = tt;
    fresh = λ p le. refl;
    ghosts = λ p f e dead. absurd (cc e);
    counted = λ p. refl;
  };
  used_is = refl;
}

-- Whatever calls were made, every file counts the descriptors that point to it, the number of used
-- descriptors is right, no two files share an address, a deleted file has a descriptor, and no
-- descriptor points to a file that was freed.
pub Reachable-IsLinked : (fs : Fs) → Reachable fs → IsLinked fs
Reachable-IsLinked fs start = initial-IsLinked
Reachable-IsLinked fs (after r s) = Step-IsLinked s (Reachable-IsLinked _ r)

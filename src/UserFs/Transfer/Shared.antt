-- ===== src/UserFs/Transfer/Shared.antt =====
-- hw3/userfs.c: `ufs_write` and `ufs_read` through two descriptors of one file.
use system_programming_hw.Base.{
  ℕ, ◌+◌, ◌≤◌, ◌≡◌, ◌≢◌, ap, ◌∙◌, arith, Option, some, ◌∷◌, length, take, drop, Checked, ok, ◌>>=◌,
}
use system_programming_hw.UserFs.Block.{max_file_size, Cells, wanted}
use system_programming_hw.UserFs.Block.Splice.{length-splice, take-drop-splice}
use system_programming_hw.UserFs.Block.Contents.{contents}
use system_programming_hw.UserFs.Block.Write.{IsTail}
use system_programming_hw.UserFs.State.{File, FileDesc, Fs}
use system_programming_hw.UserFs.State.Table.{
  Placed-find_desc, find_desc-Placed, Placed-set_other, deref_address, deref-update,
}
use system_programming_hw.UserFs.Transfer.{store, ufs_write, ufs_read}
use system_programming_hw.UserFs.Transfer.Writes.{IsFile, MayWrite, Opens, ufs_write_lem}
use system_programming_hw.UserFs.Transfer.Reads.{MayRead, ufs_read_lem}

-- A write through `fd`, then a read of as many bytes through `fd'`: the bytes read.
abbrev pub write_then_read : ℕ → ℕ → Cells → Fs → Checked (Option Cells)
write_then_read fd fd' buf fs = do
  (count, fs₁) ← ufs_write fd buf fs
  (got, fs₂) ← ufs_read fd' (length buf) fs₁
  ok got

-- Another descriptor of the file after a write through `fd`.
Opens-store :
    (fs : Fs) (fd fd' : ℕ) (d d₁ d' : FileDesc) (f f₁ : File)
    → fd' ≢ fd
    → Opens fs fd d f
    → Opens fs fd' d' f
    → f₁.address ≡ f.address
    → Opens (store fs fd f₁ d₁) fd' d' f₁
Opens-store fs fd fd' d d₁ d' f f₁ ne opens opens' same = record {
  found = Placed-find_desc (store fs fd f₁ d₁) fd' d' (
      unfold store in
      (Placed-set_other fs.descriptors fd' fd d' (some d₁) ne
        (find_desc-Placed fs fd d opens.found).positive (find_desc-Placed fs fd' d' opens'.found)));
  points =
      unfold store in
      (deref-update d'.file fs.files f f₁ opens'.points
        (same ∙ deref_address d'.file fs.files f opens'.points));
}

-- A write at the end of a file without a gap, and a read of the same number of bytes through another
-- descriptor of the same file that stands at the same offset: the read gives the bytes written.
pub ufs_write-ufs_read :
    (fs : Fs) (fd fd' : ℕ) (d d' : FileDesc) (f : File) (x : Option ℕ) (xs : Cells)
    → fd' ≢ fd
    → Opens fs fd d f
    → Opens fs fd' d' f
    → MayWrite d
    → MayRead d'
    → d'.offset ≡ d.offset
    → IsFile f
    → IsTail f.blocks d.offset
    → f.size + length (x ∷ xs) ≤ max_file_size
    → write_then_read fd fd' (x ∷ xs) fs ≡ ok (some (x ∷ xs))
ufs_write-ufs_read fs fd fd' d d' f x xs ne opens opens' may may' at h tail fits =
    let s = ufs_write_lem fs fd d f x xs opens may h tail fits in
    let d₁ = record d { offset = d.offset + length (x ∷ xs) } in
    ap (λ c. c >>= read_back) s.returned
    ∙ ap (λ c. c >>= keep)
        (ufs_read_lem (store fs fd s.after d₁) fd' (length (x ∷ xs)) d' s.after
          (Opens-store fs fd fd' d d₁ d' f s.after ne opens opens'
            (ap (λ (g : File). g.address) s.same))
          may' s.is_file
          (omega (
            arith,
            at,
            s.is_file.sized,
            ap length s.text_is,
            length-splice (contents f.blocks) d.offset (x ∷ xs) tail.0,
          )))
    ∙ ap (λ m. ok (some m))
        (ap (λ n. take n (drop d'.offset (contents s.after.blocks))) small
          ∙ ap (λ i. take (length (x ∷ xs)) (drop i (contents s.after.blocks))) at
          ∙ ap (λ m. take (length (x ∷ xs)) (drop d.offset m)) s.text_is
          ∙ take-drop-splice (contents f.blocks) d.offset (x ∷ xs) tail.0)
  where
    small : wanted (length (x ∷ xs)) ≡ length (x ∷ xs)
    small = ground (arith, fits)

    keep : Option Cells × Fs → Checked (Option Cells)
    keep (got, fs₂) = ok got

    read_back : Option ℕ × Fs → Checked (Option Cells)
    read_back (count, fs₁) = ufs_read fd' (length (x ∷ xs)) fs₁ >>= keep

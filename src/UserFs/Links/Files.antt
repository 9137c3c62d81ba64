-- ===== src/UserFs/Links/Files.antt =====
-- hw3/userfs.c: the list of files after a file was written to, or unlinked.
use mathlib.Core.Path.{subst}
use system_programming_hw.Base.{
  ℕ, ◌≡◌, ◌≢◌, refl, sym, ap, ◌∙◌, arith, none, some, List, [], ◌∷◌, ℕ_discrete,
}
use system_programming_hw.UserFs.State.{File, deref, update, unlink}
use system_programming_hw.UserFs.State.Table.{deref_here, deref_there, update_here, update_there}
use system_programming_hw.UserFs.Links.{AllApart}

pub deref-update_other :
    (p : ℕ) (g : File) (files : List File)
    → p ≢ g.address
    → deref p (update g files) ≡ deref p files
unfolding deref update
deref-update_other p g [] ne = refl
deref-update_other p g (h ∷ files) ne = elim (ℕ_discrete h.address g.address) [
  | yes same ↦
      ap (deref p) (update_here h g files same)
      ∙ deref_there p g files (λ e. ne (sym e))
      ∙ sym (deref_there p h files (λ e. ne (sym e ∙ same)))
  | no other ↦ ap (deref p) (update_there h g files other) ∙ elim (ℕ_discrete h.address p) [
    | yes at ↦ deref_here p h (update g files) at ∙ sym (deref_here p h files at)
    | no past ↦
        deref_there p h (update g files) past
        ∙ deref-update_other p g files ne
        ∙ sym (deref_there p h files past)
  ]
]

-- A write through a dangling pointer changes nothing here.
update_missing :
    (g : File) (files : List File) → deref g.address files ≡ none → update g files ≡ files
unfolding deref update
update_missing g [] e = refl
update_missing g (h ∷ files) e = elim (ℕ_discrete h.address g.address) [
  | yes same ↦
      let clash : none ≡ some h = sym e ∙ deref_here g.address h files same in absurd (cc clash)
  | no other ↦
      update_there h g files other
      ∙ ap (◌∷◌ h) (update_missing g files (sym (deref_there g.address h files other) ∙ e))
]

pub deref-update_absent :
    (p : ℕ) (g : File) (files : List File) → deref p files ≡ none → deref p (update g files) ≡ none
deref-update_absent p g files e = elim (ℕ_discrete p g.address) [
  | yes same ↦ ap (deref p) (update_missing g files (ap (λ q. deref q files) (sym same) ∙ e)) ∙ e
  | no other ↦ deref-update_other p g files other ∙ e
]

pub AllApart-update : (g : File) (files : List File) → AllApart files → AllApart (update g files)
unfolding update
AllApart-update g [] h = tt
AllApart-update g (f ∷ files) (a, h) = elim (ℕ_discrete f.address g.address) [
  | yes same ↦
      subst AllApart (sym (update_here f g files same)) (ap (λ q. deref q files) (sym same) ∙ a, h)
  | no other ↦
      subst AllApart (sym (update_there f g files other))
        (deref-update_absent f.address g files a, AllApart-update g files h)
]

unlink_here : (p : ℕ) (f : File) (files : List File) → f.address ≡ p → unlink p (f ∷ files) ≡ files
unfolding unlink
unlink_here p f files e = ground arith

unlink_there :
    (p : ℕ) (f : File) (files : List File)
    → f.address ≢ p
    → unlink p (f ∷ files) ≡ f ∷ unlink p files
unfolding unlink
unlink_there p f files ne = ground arith

pub deref-unlink_other :
    (p q : ℕ) (files : List File) → q ≢ p → deref q (unlink p files) ≡ deref q files
unfolding unlink
deref-unlink_other p q [] ne = refl
deref-unlink_other p q (f ∷ files) ne = elim (ℕ_discrete f.address p) [
  | yes same ↦
      ap (deref q) (unlink_here p f files same)
      ∙ sym (deref_there q f files (λ e. ne (sym e ∙ same)))
  | no other ↦ ap (deref q) (unlink_there p f files other) ∙ elim (ℕ_discrete f.address q) [
    | yes at ↦ deref_here q f (unlink p files) at ∙ sym (deref_here q f files at)
    | no past ↦
        deref_there q f (unlink p files) past
        ∙ deref-unlink_other p q files ne
        ∙ sym (deref_there q f files past)
  ]
]

pub deref-unlink : (p : ℕ) (files : List File) → AllApart files → deref p (unlink p files) ≡ none
unfolding unlink deref
deref-unlink p [] h = refl
deref-unlink p (f ∷ files) (a, h) = elim (ℕ_discrete f.address p) [
  | yes same ↦ ap (deref p) (unlink_here p f files same) ∙ ap (λ q. deref q files) (sym same) ∙ a
  | no other ↦
      ap (deref p) (unlink_there p f files other)
      ∙ deref_there p f (unlink p files) other
      ∙ deref-unlink p files h
]

pub deref-unlink_absent :
    (p q : ℕ) (files : List File)
    → AllApart files
    → deref q files ≡ none
    → deref q (unlink p files) ≡ none
deref-unlink_absent p q files h e = elim (ℕ_discrete q p) [
  | yes same ↦ ap (λ r. deref r (unlink p files)) same ∙ deref-unlink p files h
  | no other ↦ deref-unlink_other p q files other ∙ e
]

pub AllApart-unlink : (p : ℕ) (files : List File) → AllApart files → AllApart (unlink p files)
unfolding unlink
AllApart-unlink p [] h = tt
AllApart-unlink p (f ∷ files) (a, h) = elim (ℕ_discrete f.address p) [
  | yes same ↦ subst AllApart (sym (unlink_here p f files same)) h
  | no other ↦
      subst AllApart (sym (unlink_there p f files other))
        (deref-unlink_absent p f.address files h a, AllApart-unlink p files h)
]

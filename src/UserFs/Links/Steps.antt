-- ===== src/UserFs/Links/Steps.antt =====
-- hw3/userfs.c: the changes of the file list that the operations make, and the counts.
use system_programming_hw.Base.{
  ℕ, ◌+◌, ◌<◌, ◌≡◌, ◌≢◌, refl, sym, ap, ◌∙◌, arith, true, false, none, some, List, ◌∷◌, ℕ_discrete,
}
use system_programming_hw.UserFs.State.{File, deref, update, unlink}
use system_programming_hw.UserFs.State.Table.{deref_here, deref_there, deref-update, some_is}
use system_programming_hw.UserFs.Links.{AreLinked, refs_of}
use system_programming_hw.UserFs.Links.Files.{
  deref-update_other, deref-update_absent, AllApart-update, deref-unlink_other, deref-unlink,
  deref-unlink_absent, AllApart-unlink,
}

-- Other counts that agree.
pub AreLinked-counts :
    (files : List File) (next : ℕ) (c c' : ℕ → ℕ)
    → AreLinked files next c
    → ((p : ℕ) → c' p ≡ c p)
    → AreLinked files next c'
AreLinked-counts files next c c' h e = record {
  apart = h.apart;
  fresh = h.fresh;
  ghosts = h.ghosts;
  counted = λ p. h.counted p ∙ sym (e p);
}

-- A file is written to, and its count follows.
pub AreLinked-update :
    (files : List File) (next : ℕ) (c c' : ℕ → ℕ) (f g : File)
    → AreLinked files next c
    → deref g.address files ≡ some f
    → (g.is_ghost ≡ true → 0 < g.refs)
    → c' g.address ≡ g.refs
    → ((p : ℕ) → p ≢ g.address → c' p ≡ c p)
    → AreLinked (update g files) next c'
AreLinked-update files next c c' f g h at ghost same others = record {
  apart = AllApart-update g files h.apart;
  fresh = λ p le. deref-update_absent p g files (h.fresh p le);
  ghosts = ghosts';
  counted = counted';
}
  where
    here : (p : ℕ) → p ≡ g.address → deref p (update g files) ≡ some g
    here p e = ap (λ q. deref q (update g files)) e ∙ deref-update g.address files f g at refl

    ghosts' :
        (p : ℕ) (k : File) → deref p (update g files) ≡ some k → k.is_ghost ≡ true → 0 < k.refs
    ghosts' p k e dead = elim (ℕ_discrete p g.address) [
      | yes s ↦
          let e' : g ≡ k = some_is (sym (here p s) ∙ e) in
          omega
            (arith, ap (λ (m : File). m.refs) e', ghost (ap (λ (m : File). m.is_ghost) e' ∙ dead))
      | no s ↦ h.ghosts p k (sym (deref-update_other p g files s) ∙ e) dead
    ]

    counted' : (p : ℕ) → refs_of (deref p (update g files)) ≡ c' p
    counted' p = elim (ℕ_discrete p g.address) [
      | yes s ↦ ap refs_of (here p s) ∙ sym same ∙ ap c' (sym s)
      | no s ↦ ap refs_of (deref-update_other p g files s) ∙ h.counted p ∙ sym (others p s)
    ]

-- A file is freed that no descriptor points to any more.
pub AreLinked-unlink :
    (files : List File) (next : ℕ) (c c' : ℕ → ℕ) (a : ℕ)
    → AreLinked files next c
    → c' a ≡ 0
    → ((p : ℕ) → p ≢ a → c' p ≡ c p)
    → AreLinked (unlink a files) next c'
AreLinked-unlink files next c c' a h gone others = record {
  apart = AllApart-unlink a files h.apart;
  fresh = λ p le. deref-unlink_absent a p files h.apart (h.fresh p le);
  ghosts = ghosts';
  counted = counted';
}
  where
    here : (p : ℕ) → p ≡ a → deref p (unlink a files) ≡ none
    here p e = ap (λ q. deref q (unlink a files)) e ∙ deref-unlink a files h.apart

    ghosts' :
        (p : ℕ) (k : File) → deref p (unlink a files) ≡ some k → k.is_ghost ≡ true → 0 < k.refs
    ghosts' p k e dead = elim (ℕ_discrete p a) [
      | yes s ↦ let clash : none ≡ some k = sym (here p s) ∙ e in absurd (cc clash)
      | no s ↦ h.ghosts p k (sym (deref-unlink_other a p files s) ∙ e) dead
    ]

    counted' : (p : ℕ) → refs_of (deref p (unlink a files)) ≡ c' p
    counted' p = elim (ℕ_discrete p a) [
      | yes s ↦ ap refs_of (here p s) ∙ sym gone ∙ ap c' (sym s)
      | no s ↦ ap refs_of (deref-unlink_other a p files s) ∙ h.counted p ∙ sym (others p s)
    ]

-- A new file that no descriptor points to yet.
pub AreLinked-create :
    (files : List File) (next : ℕ) (c : ℕ → ℕ) (f : File)
    → AreLinked files next c
    → f.address ≡ next
    → f.refs ≡ 0
    → f.is_ghost ≡ false
    → AreLinked (f ∷ files) (next + 1) c
AreLinked-create files next c f h at unused lives = record {
  apart = (h.fresh f.address (omega (arith, at)), h.apart);
  fresh = λ p le.
      deref_there p f files (λ e. let e' : f.address ≡ p = e in absurd (omega (arith, at, e')))
      ∙ h.fresh p (omega arith);
  ghosts = ghosts';
  counted = counted';
}
  where
    ghosts' : (p : ℕ) (k : File) → deref p (f ∷ files) ≡ some k → k.is_ghost ≡ true → 0 < k.refs
    ghosts' p k e dead = elim (ℕ_discrete f.address p) [
      | yes s ↦
          let e' : f ≡ k = some_is (sym (deref_here p f files s) ∙ e) in
          let clash : false ≡ true = sym lives ∙ ap (λ (m : File). m.is_ghost) e' ∙ dead in
          absurd (cc clash)
      | no s ↦ h.ghosts p k (sym (deref_there p f files s) ∙ e) dead
    ]

    counted' : (p : ℕ) → refs_of (deref p (f ∷ files)) ≡ c p
    counted' p = elim (ℕ_discrete f.address p) [
      | yes s ↦
          ap refs_of (deref_here p f files s)
          ∙ unused
          ∙ sym (ap refs_of (h.fresh p (omega (arith, at, s))))
          ∙ h.counted p
      | no s ↦ ap refs_of (deref_there p f files s) ∙ h.counted p
    ]

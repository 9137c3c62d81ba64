-- ===== src/UserFs/State/Table.antt =====
-- hw3/userfs.c: the descriptor table and the file list after a write to one of their places.
use system_programming_hw.Base.{
  ℕ, zero, suc, ◌-◌, ◌≤◌, ◌<◌, ◌≡◌, ◌≢◌, refl, sym, ap, ◌∙◌, arith, Option, none, some, List, [],
  ◌∷◌, length, get_elem?, get_elem?-set_other, set, ◌⊎◌, dec_lt, ℕ_discrete,
}
use system_programming_hw.UserFs.State.{File, FileDesc, Fs, deref, update, slot, find_desc}

module _ {ℓ} {A : Type ℓ} where
  pub length-set : (xs : List A) (i : ℕ) (v : A) → length (set xs i v) ≡ length xs
  length-set [] i v = refl
  length-set (x ∷ xs) zero v = refl
  length-set (x ∷ xs) (suc i) v = ap suc (length-set xs i v)

  pub get_elem?-set :
      (xs : List A) (i : ℕ) (v : A) → i < length xs → get_elem? (set xs i v) i ≡ some v
  get_elem?-set [] i v lt = absurd (omega arith)
  get_elem?-set (x ∷ xs) zero v lt = refl
  get_elem?-set (x ∷ xs) (suc i) v lt = get_elem?-set xs i v (omega arith)

-- The descriptor `fd` stands in the table at its place.
pub record Placed (table : List (Option FileDesc)) (fd : ℕ) (d : FileDesc) : Type 0 where
  pub positive : 0 < fd
  pub inside : fd - 1 < length table
  pub stands : get_elem? table (fd - 1) ≡ some (some d)

slot-some : (s : Option (Option FileDesc)) (d : FileDesc) → slot s ≡ some d → s ≡ some (some d)
unfolding slot
slot-some none d e = absurd (cc e)
slot-some (some s) d e = ap some e

find_slot_go :
    (fs : Fs) (fd : ℕ)
    → 0 < fd
    → fd - 1 < length fs.descriptors
    → find_desc fs fd ≡ slot (get_elem? fs.descriptors (fd - 1))
unfolding find_desc
find_slot_go fs fd pos lt = ground arith

find_none :
    (fs : Fs) (fd : ℕ) → ((fd ≡ 0) ⊎ (length fs.descriptors ≤ fd - 1)) → find_desc fs fd ≡ none
unfolding find_desc
find_none fs fd h = ground arith

pub none_differs : {d : FileDesc} → none ≢ some d
none_differs e = cc e

pub find_desc-Placed :
    (fs : Fs) (fd : ℕ) (d : FileDesc) → find_desc fs fd ≡ some d → Placed fs.descriptors fd d
find_desc-Placed fs fd d e = elim (dec_lt 0 fd) [
  | no z ↦ absurd (none_differs (sym (find_none fs fd (omega arith)) ∙ e))
  | yes pos ↦ elim (dec_lt (fd - 1) (length fs.descriptors)) [
    | no z ↦ absurd (none_differs (sym (find_none fs fd (omega arith)) ∙ e))
    | yes lt ↦ record {
      positive = pos;
      inside = lt;
      stands =
          slot-some (get_elem? fs.descriptors (fd - 1)) d (sym (find_slot_go fs fd pos lt) ∙ e);
    }
  ]
]

pub Placed-find_desc :
    (fs : Fs) (fd : ℕ) (d : FileDesc) → Placed fs.descriptors fd d → find_desc fs fd ≡ some d
unfolding slot
Placed-find_desc fs fd d p = find_slot_go fs fd p.positive p.inside ∙ ap slot p.stands

pub Placed-set :
    (table : List (Option FileDesc)) (fd : ℕ) (d d' : FileDesc)
    → Placed table fd d
    → Placed (set table (fd - 1) (some d')) fd d'
Placed-set table fd d d' p = record {
  positive = p.positive;
  inside = omega (arith, p.inside, length-set table (fd - 1) (some d'));
  stands = get_elem?-set table (fd - 1) (some d') p.inside;
}

pub Placed-set_other :
    (table : List (Option FileDesc)) (fd fd' : ℕ) (d : FileDesc) (v : Option FileDesc)
    → fd ≢ fd'
    → 0 < fd'
    → Placed table fd d
    → Placed (set table (fd' - 1) v) fd d
Placed-set_other table fd fd' d v ne pos p = record {
  positive = p.positive;
  inside = omega (arith, p.inside, length-set table (fd' - 1) v);
  stands =
      get_elem?-set_other table (fd' - 1) (fd - 1) v (λ e. ne (omega (arith, p.positive)))
      ∙ p.stands;
}

pub deref_here : (p : ℕ) (f : File) (fs : List File) → f.address ≡ p → deref p (f ∷ fs) ≡ some f
unfolding deref
deref_here p f fs e = ground arith

pub deref_there :
    (p : ℕ) (f : File) (fs : List File) → f.address ≢ p → deref p (f ∷ fs) ≡ deref p fs
unfolding deref
deref_there p f fs ne = ground arith

pub update_here : (f g : File) (fs : List File) → f.address ≡ g.address → update g (f ∷ fs) ≡ g ∷ fs
unfolding update
update_here f g fs e = ground arith

pub update_there :
    (f g : File) (fs : List File) → f.address ≢ g.address → update g (f ∷ fs) ≡ f ∷ update g fs
unfolding update
update_there f g fs ne = ground arith

pub some_is : {A : Type 0} {a b : A} → some a ≡ some b → a ≡ b
some_is e = cc e

-- What a pointer points to has that address.
pub deref_address : (p : ℕ) (files : List File) (f : File) → deref p files ≡ some f → f.address ≡ p
unfolding deref
deref_address p [] f e = absurd (cc e)
deref_address p (g ∷ files) f e = elim (ℕ_discrete g.address p) [
  | yes same ↦ ap (λ (h : File). h.address) (some_is (sym e ∙ deref_here p g files same)) ∙ same
  | no other ↦ deref_address p files f (sym (deref_there p g files other) ∙ e)
]

-- A pointer to a file that is written to.
pub deref-update :
    (p : ℕ) (files : List File) (f g : File)
    → deref p files ≡ some f
    → g.address ≡ p
    → deref p (update g files) ≡ some g
unfolding deref update
deref-update p [] f g e a = absurd (cc e)
deref-update p (h ∷ files) f g e a = elim (ℕ_discrete h.address p) [
  | yes same ↦ ap (deref p) (update_here h g files (same ∙ sym a)) ∙ deref_here p g files a
  | no other ↦
      ap (deref p) (update_there h g files (λ k. other (k ∙ a)))
      ∙ deref_there p h (update g files) other
      ∙ deref-update p files f g (sym (deref_there p h files other) ∙ e) a
]

-- ===== src/Server/Disk/Laws.antt =====
-- What is found after a store.
use kubegate.Prelude.{
  ℕ, String, Option, none, some, List, [], ◌∷◌, ◌==◌, if◌then◌else◌, ◌≡◌, ◌≢◌, refl, sym, ap, ◌∙◌,
  arith, eq_iff, eq_refl,
}
use mathlib.Core.Option.{some-injective}
use kubegate.Text.Laws.{test-ne}
use kubegate.Server.Disk.{
  File, Disk, dir_mode, find, store, made_dir, secured_dir, written, secured,
}

module _ {ℓ} {A : Type ℓ} where
  pub find-store :
      (p q : String) (a : A) (xs : List (String × A))
      → find q (store p a xs) ≡ (if p == q then some a else find q xs)
  unfolding find store
  find-store p q a [] = refl
  find-store p q a ((r, b) ∷ xs) =
      ground (arith, find-store p q a xs, eq_iff p q, eq_iff r p, eq_iff r q)

  pub find-store_self :
      (p : String) (a : A) (xs : List (String × A)) → find p (store p a xs) ≡ some a
  find-store_self p a xs = rw (find-store, eq_refl)

  pub find-store_other :
      (p q : String) (a : A) (xs : List (String × A)) → q ≢ p → find q (store p a xs) ≡ find q xs
  find-store_other p q a xs n = rw (find-store, test-ne p q n)

pub made_dir-files : (m : Option ℕ) (p : String) (d : Disk) → (made_dir m p d).files ≡ d.files
made_dir-files none p d = refl
made_dir-files (some m) p d = refl

pub written-text :
    (p text : String) (d : Disk) (f : File)
    → find p (written p text d).files ≡ some f
    → f.text ≡ text
unfolding written
written-text p text d f e =
    ap (λ x. x.text) (some-injective _ _ (sym e ∙ find-store_self p _ d.files))

pub written-dirs : (p text : String) (d : Disk) → (written p text d).dirs ≡ d.dirs
unfolding written
written-dirs p text d = refl

-- The files at other paths are untouched, and a private directory stays private.
pub record IsElsewhere (p : String) (d d' : Disk) : Type 0 where
  pub files : (q : String) → q ≢ p → find q d'.files ≡ find q d.files
  pub dirs : (x : String) → find x d.dirs ≡ some dir_mode → find x d'.dirs ≡ some dir_mode

pub same-IsElsewhere : (p : String) (d : Disk) → IsElsewhere p d d
same-IsElsewhere p d = record { files = λ q n. refl; dirs = λ x h. h }

pub IsElsewhere-trans :
    {p : String} {a b c : Disk} → IsElsewhere p a b → IsElsewhere p b c → IsElsewhere p a c
IsElsewhere-trans ab bc = record {
  files = λ q n. bc.files q n ∙ ab.files q n;
  dirs = λ x h. bc.dirs x (ab.dirs x h);
}

pub written-IsElsewhere : (p text : String) (d : Disk) → IsElsewhere p d (written p text d)
unfolding written
written-IsElsewhere p text d = record {
  files = λ q n. find-store_other p q _ d.files n;
  dirs = λ x h. h;
}

pub secured-IsElsewhere : (p : String) (f : File) (d : Disk) → IsElsewhere p d (secured p f d)
secured-IsElsewhere p f d = record {
  files = λ q n. find-store_other p q _ d.files n;
  dirs = λ x h. h;
}

store_private :
    (p x : String) (ds : List (String × ℕ))
    → find x ds ≡ some dir_mode
    → find x (store p dir_mode ds) ≡ some dir_mode
store_private p x ds h = ground (arith, find-store p x dir_mode ds, h)

made_dir_private :
    (m : Option ℕ) (p x : String) (d : Disk)
    → find x d.dirs ≡ some dir_mode
    → find x (made_dir m p d).dirs ≡ some dir_mode
made_dir_private none p x d h = store_private p x d.dirs h
made_dir_private (some m) p x d h = h

pub secured_dir-IsElsewhere : (p dir : String) (d : Disk) → IsElsewhere p d (secured_dir dir d)
secured_dir-IsElsewhere p dir d = record {
  files = λ q n. ap (find q) (made_dir-files (find dir d.dirs) dir d);
  dirs = λ x h. store_private dir x _ (made_dir_private (find dir d.dirs) dir x d h);
}

-- ===== src/Command/Start/Stores.antt =====
-- What the log and the token leave of the certificate and of the token.
use kubegate.Prelude.{String, Option, none, some, ◌≡◌, ◌≢◌, refl, sym, ◌∙◌, ap}
use kubegate.Server.Disk.{File, Disk, dir_mode, find}
use kubegate.Server.Disk.Laws.{find-store_other, IsElsewhere}
use kubegate.Server.Certificate.{Library, cert_path, key_path}
use kubegate.Server.Certificate.Pinned.{IsPinned}
use kubegate.Server.TokenFile.Kept.{IsKept}
use kubegate.Command.Start.{Environment, opened}

opened_found :
    (p q : String) (f : File) (o : Option File) (d : Disk)
    → find q d.files ≡ o
    → find p d.files ≡ some f
    → find p (opened q o d).files ≡ some f
opened_found p q f (some g) d e h = h
opened_found p q f none d e h =
    find-store_other q p _ d.files (λ same. cc (sym h ∙ ap (λ x. find x d.files) same ∙ e)) ∙ h

opened-dirs : (q : String) (o : Option File) (d : Disk) → (opened q o d).dirs ≡ d.dirs
opened-dirs q none d = refl
opened-dirs q (some g) d = refl

pub opened-IsKept :
    (p tok q : String) (d : Disk) → IsKept p tok d → IsKept p tok (opened q (find q d.files) d)
opened-IsKept p tok q d k = record {
  file = k.file;
  found = opened_found p q k.file _ d refl k.found;
  private = k.private;
  content = k.content;
  long = k.long;
}

-- A pinned certificate stays so on a disk where its files and its directory are found as before.
still-IsPinned :
    (lib : Library) (dir cert key : String) (d d' : Disk)
    → ((f : File)
        → find (cert_path lib dir) d.files ≡ some f
        → find (cert_path lib dir) d'.files ≡ some f)
    → ((f : File)
        → find (key_path lib dir) d.files ≡ some f
        → find (key_path lib dir) d'.files ≡ some f)
    → (find dir d.dirs ≡ some dir_mode → find dir d'.dirs ≡ some dir_mode)
    → IsPinned lib dir cert key d
    → IsPinned lib dir cert key d'
still-IsPinned lib dir cert key d d' c k m i = record {
  cert_file = i.cert_file;
  cert_found = c i.cert_file i.cert_found;
  cert_text = i.cert_text;
  key_file = i.key_file;
  key_found = k i.key_file i.key_found;
  key_text = i.key_text;
  key_private = i.key_private;
  pair = i.pair;
  dir_private = m i.dir_private;
}

pub opened-IsPinned :
    (lib : Library) (dir cert key q : String) (d : Disk)
    → IsPinned lib dir cert key d
    → IsPinned lib dir cert key (opened q (find q d.files) d)
opened-IsPinned lib dir cert key q d =
    still-IsPinned lib dir cert key d _ (λ f. opened_found _ q f _ d refl)
      (λ f. opened_found _ q f _ d refl) (λ h. ap (find dir) (opened-dirs q _ d) ∙ h)

-- The token's file is not one of the certificate's.
abbrev pub IsSeparate : Environment → String → String → Type 0
IsSeparate env token_file dir =
    (cert_path env.certificates dir ≢ token_file) × (key_path env.certificates dir ≢ token_file)

pub elsewhere-IsPinned :
    (env : Environment) (dir cert key p : String) (d d' : Disk)
    → IsSeparate env p dir
    → IsElsewhere p d d'
    → IsPinned env.certificates dir cert key d
    → IsPinned env.certificates dir cert key d'
elsewhere-IsPinned env dir cert key p d d' (c, k) e =
    still-IsPinned env.certificates dir cert key d d' (λ f h. e.files _ c ∙ h)
      (λ f h. e.files _ k ∙ h) (e.dirs dir)

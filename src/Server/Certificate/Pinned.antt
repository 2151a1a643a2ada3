-- ===== src/Server/Certificate/Pinned.antt =====
-- What is on the disk where a certificate is returned.
use kubegate.Prelude.{
  String, true, Option, none, some, List, ◌≡◌, ◌≢◌, refl, sym, ◌∙◌, inl, inr, Bool-cases,
}
use kubegate.Server.Disk.{File, Disk, dir_mode, file_mode, find, secured_dir, written, secured}
use kubegate.Server.Disk.Laws.{find-store_self, find-store_other, written-text, written-dirs}
use kubegate.Server.Certificate.{
  Library, Os, CertError, CertResult, certificate, failed, cert_path, key_path, read_file,
  pair_or_fail, adopt_key, write_cert, secure_key, write_key, write_generated, adopt_or_generate,
  cert_of_disk, load_or_create_cert,
}

-- The two files and the directory of a certificate.
pub record IsPinned (lib : Library) (dir cert key : String) (d : Disk) : Type 0 where
  pub cert_file : File
  pub cert_found : find (cert_path lib dir) d.files ≡ some cert_file
  pub cert_text : cert_file.text ≡ cert
  pub key_file : File
  pub key_found : find (key_path lib dir) d.files ≡ some key_file
  pub key_text : key_file.text ≡ key
  pub key_private : key_file.mode ≡ file_mode
  pub pair : lib.is_key_pair cert key ≡ true
  pub dir_private : find dir d.dirs ≡ some dir_mode

-- What a step leaves where it returns a certificate.
abbrev Pins : Library → String → CertResult × Disk → Type 0
Pins lib dir r = (cert key : String) → r.0 ≡ certificate cert key → IsPinned lib dir cert key r.1

failed-Pins : (lib : Library) (dir : String) (e : CertError) (d : Disk) → Pins lib dir (failed e, d)
failed-Pins lib dir e d cert key h = cc h

cert-inj : {a b c d : String} → certificate a b ≡ certificate c d → (a ≡ c) × (b ≡ d)
cert-inj e = (cc e, cc e)

pair_or_fail_inv :
    (lib : Library) (cert key cert' key' : String)
    → pair_or_fail lib cert key ≡ certificate cert' key'
    → (lib.is_key_pair cert' key' ≡ true) × (cert ≡ cert') × (key ≡ key')
pair_or_fail_inv lib cert key cert' key' h = elim (Bool-cases (lib.is_key_pair cert key)) [
  | inl t ↦ let (a, b) = cert-inj (rw t at h) in (rw (a, b) at t, a, b)
  | inr f ↦ cc (rw f at h)
]

module _ (lib : Library) (o : Os) (dir : String)
    (apart : cert_path lib dir ≢ key_path lib dir) where
  adopt_key-Pins :
      (cert : File) (key : Option File) (d : Disk)
      → find (cert_path lib dir) d.files ≡ some cert
      → find dir d.dirs ≡ some dir_mode
      → Pins lib dir (adopt_key lib o dir cert key d)
  adopt_key-Pins cert none d c m = failed-Pins lib dir _ d
  adopt_key-Pins cert (some key) d c m = elim (Bool-cases o.can_secure_key) [
    | inr n ↦ rw n (failed-Pins lib dir _ d)
    | inl s ↦ rw s (λ cert' key' h.
        let (p, a, b) = pair_or_fail_inv lib cert.text key.text cert' key' h in
        record {
          cert_file = cert;
          cert_found = find-store_other (key_path lib dir) (cert_path lib dir) _ d.files apart ∙ c;
          cert_text = a;
          key_file = record key { mode = file_mode };
          key_found = find-store_self (key_path lib dir) _ d.files;
          key_text = b;
          key_private = refl;
          pair = p;
          dir_private = m;
        })
  ]

  key_apart : key_path lib dir ≢ cert_path lib dir
  key_apart h = apart (sym h)

  write_cert-Pins :
      (cert key : String) (f : File) (d : Disk)
      → find (key_path lib dir) d.files ≡ some f
      → f.text ≡ key
      → f.mode ≡ file_mode
      → find dir d.dirs ≡ some dir_mode
      → Pins lib dir (write_cert lib o dir cert key d)
  unfolding write_cert written
  write_cert-Pins cert key f d k t p m = elim (Bool-cases (o.can_write (cert_path lib dir))) [
    | inr n ↦ rw n (failed-Pins lib dir _ _)
    | inl w ↦ rw w (λ cert' key' h.
        let (pair, a, b) = pair_or_fail_inv lib cert key cert' key' h in
        record {
          cert_file = _;
          cert_found = find-store_self (cert_path lib dir) _ d.files;
          cert_text = a;
          key_file = f;
          key_found =
              find-store_other (cert_path lib dir) (key_path lib dir) _ d.files key_apart ∙ k;
          key_text = t ∙ b;
          key_private = p;
          pair = pair;
          dir_private = m;
        })
  ]

  secure_key-Pins :
      (cert key : String) (f : Option File) (d : Disk)
      → ((g : File) → f ≡ some g → g.text ≡ key)
      → find dir d.dirs ≡ some dir_mode
      → Pins lib dir (secure_key lib o dir cert key f d)
  unfolding write_cert
  secure_key-Pins cert key none d t m = failed-Pins lib dir _ d
  secure_key-Pins cert key (some f) d t m = elim (Bool-cases o.can_secure_key) [
    | inr n ↦ rw n (failed-Pins lib dir _ d)
    | inl s ↦ rw s (
        write_cert-Pins cert key (record f { mode = file_mode }) (secured (key_path lib dir) f d)
          (find-store_self (key_path lib dir) _ d.files) (t f refl) refl m)
  ]

  write_key-Pins :
      (cert key : String) (d : Disk)
      → find dir d.dirs ≡ some dir_mode
      → Pins lib dir (write_key lib o dir cert key d)
  unfolding write_key
  write_key-Pins cert key d m = elim (Bool-cases (o.can_write (key_path lib dir))) [
    | inr n ↦ rw n (failed-Pins lib dir _ _)
    | inl w ↦ rw w (
        secure_key-Pins cert key _ (written (key_path lib dir) key d)
          (written-text (key_path lib dir) key d) (rw written-dirs m))
  ]

  write_generated-Pins :
      (made : Option (String × String)) (d : Disk)
      → find dir d.dirs ≡ some dir_mode
      → Pins lib dir (write_generated lib o dir made d)
  write_generated-Pins none d m = failed-Pins lib dir _ d
  write_generated-Pins (some (cert, key)) d m = write_key-Pins cert key d m

  adopt_or_generate-Pins :
      (listen : String) (extra : List String) (cert : Option File) (d : Disk)
      → ((f : File) → cert ≡ some f → find (cert_path lib dir) d.files ≡ some f)
      → find dir d.dirs ≡ some dir_mode
      → Pins lib dir (adopt_or_generate lib o dir listen extra cert d)
  adopt_or_generate-Pins listen extra none d c m = write_generated-Pins _ d m
  adopt_or_generate-Pins listen extra (some cert) d c m = adopt_key-Pins cert _ d (c cert refl) m

  read_file_found :
      (p : String) (d : Disk) (f : File) → read_file o p d ≡ some f → find p d.files ≡ some f
  read_file_found p d f h = elim (Bool-cases (o.can_read p)) [
    | inl r ↦ rw r at h
    | inr n ↦ cc (rw n at h)
  ]

  load_or_create_cert-Pins :
      (listen : String) (extra : List String) (d : Disk)
      → Pins lib dir (load_or_create_cert lib o dir listen extra d)
  unfolding load_or_create_cert cert_of_disk write_cert write_key
  load_or_create_cert-Pins listen extra d = elim (Bool-cases o.can_make_dir) [
    | inr n ↦ rw n (failed-Pins lib dir _ _)
    | inl m ↦ elim (Bool-cases o.can_secure_dir) [
      | inr c ↦ rw (m, c) (failed-Pins lib dir _ _)
      | inl c ↦
          rw (m, c)
            (adopt_or_generate-Pins listen extra
              (read_file o (cert_path lib dir) (secured_dir dir d)) (secured_dir dir d)
              (read_file_found (cert_path lib dir) (secured_dir dir d))
              (find-store_self dir dir_mode _))
    ]
  ]

-- Whenever a certificate is returned, persisted or new, its files are there with just these texts, the
-- key's with mode 0600 in a directory of mode 0700, and the two are a pair, if the files have different
-- paths.
pub load_or_create_cert-IsPinned :
    (lib : Library) (o : Os) (dir listen cert key : String) (extra : List String) (d : Disk)
    → cert_path lib dir ≢ key_path lib dir
    → (load_or_create_cert lib o dir listen extra d).0 ≡ certificate cert key
    → IsPinned lib dir cert key (load_or_create_cert lib o dir listen extra d).1
load_or_create_cert-IsPinned lib o dir listen cert key extra d apart h =
    load_or_create_cert-Pins lib o dir apart listen extra d cert key h

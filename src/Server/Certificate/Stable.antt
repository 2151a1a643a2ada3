-- ===== src/Server/Certificate/Stable.antt =====
-- The certificate stays the same across starts.
use kubegate.Prelude.{String, true, some, List, ◌≡◌, ◌≢◌, sym, subst}
use kubegate.Server.Disk.{File, Disk, find, secured_dir}
use kubegate.Server.Disk.Laws.{made_dir-files}
use kubegate.Server.Certificate.{
  Library, Os, certificate, cert_path, key_path, read_file, adopt_key, adopt_or_generate,
  cert_of_disk, load_or_create_cert,
}
use kubegate.Server.Certificate.Pinned.{IsPinned, load_or_create_cert-IsPinned}

-- Every call that a start with a persisted certificate makes succeeds.
pub record IsWorking (lib : Library) (o : Os) (dir : String) : Type 0 where
  pub makes : o.can_make_dir ≡ true
  pub secures : o.can_secure_dir ≡ true
  pub reads_cert : o.can_read (cert_path lib dir) ≡ true
  pub reads_key : o.can_read (key_path lib dir) ≡ true
  pub secures_key : o.can_secure_key ≡ true

read_file_kept :
    (o : Os) (p : String) (d d' : Disk) (f : File)
    → o.can_read p ≡ true
    → find p d.files ≡ some f
    → d'.files ≡ d.files
    → read_file o p d' ≡ some f
read_file_kept o p d d' f r k same = rw (r, same, k)

adopt_key_kept :
    (lib : Library) (o : Os) (dir cert key : String) (c k : File) (d : Disk)
    → o.can_secure_key ≡ true
    → c.text ≡ cert
    → k.text ≡ key
    → lib.is_key_pair cert key ≡ true
    → (adopt_key lib o dir c (some k) d).0 ≡ certificate cert key
adopt_key_kept lib o dir cert key c k d s a b p = rw (s, a, b, p)

cert_of_disk_kept :
    (lib : Library) (o : Os) (dir listen cert key : String) (extra : List String) (d d' : Disk)
    → IsWorking lib o dir
    → IsPinned lib dir cert key d
    → d'.files ≡ d.files
    → (cert_of_disk lib o dir listen extra d').0 ≡ certificate cert key
unfolding cert_of_disk
cert_of_disk_kept lib o dir listen cert key extra d d' w i same =
    subst (λ f. (adopt_or_generate lib o dir listen extra f d').0 ≡ certificate cert key)
      (sym (read_file_kept o (cert_path lib dir) d d' i.cert_file w.reads_cert i.cert_found same))
      (subst (λ f. (adopt_key lib o dir i.cert_file f d').0 ≡ certificate cert key)
        (sym (read_file_kept o (key_path lib dir) d d' i.key_file w.reads_key i.key_found same))
        (adopt_key_kept lib o dir cert key i.cert_file i.key_file d' w.secures_key i.cert_text
          i.key_text i.pair))

load_secured :
    (lib : Library) (o : Os) (dir listen : String) (extra : List String) (d : Disk)
    → IsWorking lib o dir
    → cert_of_disk lib o dir listen extra (secured_dir dir d)
      ≡ load_or_create_cert lib o dir listen extra d
unfolding load_or_create_cert
load_secured lib o dir listen extra d w = rw (w.makes, w.secures)

-- The guest's pin stays good: once a certificate has been returned, persisted or new, the next start
-- returns the same one with the same key, whatever its listen address and names, where the calls that
-- read it succeed and the files have different paths.
pub load_or_create_cert_stable :
    (lib : Library) (o o' : Os) (dir listen listen' cert key : String) (extra extra' : List String)
    (d : Disk)
    → cert_path lib dir ≢ key_path lib dir
    → IsWorking lib o' dir
    → (load_or_create_cert lib o dir listen extra d).0 ≡ certificate cert key
    → (load_or_create_cert lib o' dir listen' extra'
        (load_or_create_cert lib o dir listen extra d).1).0
      ≡ certificate cert key
load_or_create_cert_stable lib o o' dir listen listen' cert key extra extra' d apart w h =
    let d' : Disk = (load_or_create_cert lib o dir listen extra d).1 in
    subst (λ r. r.0 ≡ certificate cert key) (load_secured lib o' dir listen' extra' d' w)
      (cert_of_disk_kept lib o' dir listen' cert key extra' d' (secured_dir dir d') w
        (load_or_create_cert-IsPinned lib o dir listen cert key extra d apart h)
        (made_dir-files (find dir d'.dirs) dir d'))

-- ===== src/Server/Certificate.antt =====
-- internal/server/tls.go: the listener's certificate, the names that it covers, and its files.
pub mod Pinned
pub mod Stable
pub mod Names
mod Tests
use kubegate.Prelude.{
  ℕ, ◌+◌, ◌-◌, String, Bool, true, false, ◌||◌, not, Option, none, some, List, [], ◌∷◌, ◌++◌, ◌==◌,
  if◌then◌else◌,
}
use kubegate.Json.{Bytes}
use kubegate.Server.Disk.{Disk, File, find, made_dir, secured_dir, written, secured}

-- The library functions that have one answer for the same arguments: filepath.Join, net.ParseIP with the
-- bytes of the address (`none` is nil), which two spellings may share, the host that net.SplitHostPort finds, and whether tls.X509KeyPair accepts a pair of PEM texts.
pub record Library : Type 0 where
  pub join : String → String → String
  pub parse_ip : String → Option Bytes
  pub split_host : String → Option String
  pub is_key_pair : String → String → Bool

-- The subject alternative names: addresses, as bytes, and host names.
pub record Sans : Type 0 where
  pub ips : List Bytes
  pub dns : List String

pub data KeyUsage : Type 0 where
  digital_signature key_encipherment cert_sign : KeyUsage

pub data ExtKeyUsage : Type 0 where
  server_auth : ExtKeyUsage

-- The fields of x509.Certificate that are set; times are in Unix's seconds.
pub record Template : Type 0 where
  pub serial : ℕ
  pub common_name : String
  pub not_before : ℕ
  pub not_after : ℕ
  pub key_usage : List KeyUsage
  pub ext_key_usage : List ExtKeyUsage
  pub basic_constraints_valid : Bool
  pub is_ca : Bool
  pub sans : Sans

-- What the operating system makes of the calls: a random serial number, the time, and the PEM texts of a
-- certificate that a new key signs, and of that key (`none` where they cannot be made); which calls
-- succeed, and what a failed write leaves.
pub record Os : Type 0 where
  pub random_serial : Option ℕ
  pub now : ℕ
  pub sign : Template → Option (String × String)
  pub can_make_dir : Bool
  pub can_secure_dir : Bool
  pub can_read : String → Bool
  pub can_write : String → Bool
  pub can_secure_key : Bool
  pub after_failed_write : Disk → Disk

pub data CertError : Type 0 where
  no_directory directory_not_secured : CertError
  key_missing key_not_secured not_a_pair : CertError
  not_generated key_not_written cert_not_written : CertError

-- The PEM texts of the certificate and of its key.
pub data CertResult : Type 0 where
  certificate : String → String → CertResult
  failed : CertError → CertResult

abbrev pub add_parsed : Sans → String → Option Bytes → Sans
add_parsed sans s none = record sans { dns = sans.dns ++ s ∷ [] }
add_parsed sans s (some ip) = record sans { ips = sans.ips ++ ip ∷ [] }

-- `addSAN`
unfoldable pub add_san : Library → Sans → String → Sans
add_san lib sans s = if s == "" then sans else add_parsed sans s (lib.parse_ip s)

unfoldable pub add_sans : Library → Sans → List String → Sans
unfolding add_san
add_sans lib sans [] = sans
add_sans lib sans (s ∷ rest) = add_sans lib (add_san lib sans s) rest

abbrev pub host_or : Option String → String → String
host_or none listen = listen
host_or (some h) listen = h

-- The names that the listen address asks for.
abbrev pub listen_names : String → List String
listen_names host =
    if host == "" || host == "0.0.0.0" || host == "::"
    then "127.0.0.1" ∷ "::1" ∷ "localhost" ∷ []
    else host ∷ []

-- The names of a certificate that `generateSelfSigned` makes.
unfoldable pub subject_names : Library → String → List String → Sans
unfolding add_sans
subject_names lib listen extra =
    add_sans lib
      (add_sans lib (record { ips = []; dns = [] })
        (listen_names (host_or (lib.split_host listen) listen)))
      extra

-- Ten years.
abbrev pub cert_validity : ℕ
cert_validity = 315360000

-- The certificate that `generateSelfSigned` has signed by its own key.
abbrev pub template : ℕ → ℕ → Sans → Template
template serial now sans = record {
  serial = serial;
  common_name = "kubegate";
  not_before = now - 3600;
  not_after = now + cert_validity;
  key_usage = digital_signature ∷ key_encipherment ∷ cert_sign ∷ [];
  ext_key_usage = server_auth ∷ [];
  basic_constraints_valid = true;
  is_ca = true;
  sans = sans;
}

abbrev pub generate_with : Os → Sans → Option ℕ → Option (String × String)
generate_with o sans none = none
generate_with o sans (some serial) = o.sign (template serial o.now sans)

-- `generateSelfSigned`
abbrev pub generate_self_signed : Library → Os → String → List String → Option (String × String)
generate_self_signed lib o listen extra =
    generate_with o (subject_names lib listen extra) o.random_serial

abbrev pub cert_path : Library → String → String
cert_path lib dir = lib.join dir "tls.crt"

abbrev pub key_path : Library → String → String
key_path lib dir = lib.join dir "tls.key"

abbrev pub read_file : Os → String → Disk → Option File
read_file o p d = if o.can_read p then find p d.files else none

abbrev pub pair_or_fail : Library → String → String → CertResult
pair_or_fail lib cert key =
    if lib.is_key_pair cert key then certificate cert key else failed not_a_pair

-- A certificate that is there, with its key if that is too.
abbrev pub adopt_key : Library → Os → String → File → Option File → Disk → CertResult × Disk
adopt_key lib o dir cert none d = (failed key_missing, d)
adopt_key lib o dir cert (some key) d =
    if not o.can_secure_key
    then (failed key_not_secured, d)
    else (pair_or_fail lib cert.text key.text, secured (key_path lib dir) key d)

unfoldable pub write_cert : Library → Os → String → String → String → Disk → CertResult × Disk
write_cert lib o dir cert key d =
    if not (o.can_write (cert_path lib dir))
    then (failed cert_not_written, o.after_failed_write d)
    else (pair_or_fail lib cert key, written (cert_path lib dir) cert d)

-- The chmod of the key that was written.
abbrev pub secure_key :
    Library → Os → String → String → String → Option File → Disk → CertResult × Disk
secure_key lib o dir cert key none d = (failed key_not_secured, d)
secure_key lib o dir cert key (some f) d =
    if not o.can_secure_key
    then (failed key_not_secured, d)
    else write_cert lib o dir cert key (secured (key_path lib dir) f d)

unfoldable pub write_key : Library → Os → String → String → String → Disk → CertResult × Disk
write_key lib o dir cert key d =
    if not (o.can_write (key_path lib dir))
    then (failed key_not_written, o.after_failed_write d)
    else let d' = written (key_path lib dir) key d in
      secure_key lib o dir cert key (find (key_path lib dir) d'.files) d'

abbrev pub write_generated :
    Library → Os → String → Option (String × String) → Disk → CertResult × Disk
write_generated lib o dir none d = (failed not_generated, d)
write_generated lib o dir (some (cert, key)) d = write_key lib o dir cert key d

abbrev pub adopt_or_generate :
    Library → Os → String → String → List String → Option File → Disk → CertResult × Disk
adopt_or_generate lib o dir listen extra none d =
    write_generated lib o dir (generate_self_signed lib o listen extra) d
adopt_or_generate lib o dir listen extra (some cert) d =
    adopt_key lib o dir cert (read_file o (key_path lib dir) d) d

unfoldable pub cert_of_disk :
    Library → Os → String → String → List String → Disk → CertResult × Disk
cert_of_disk lib o dir listen extra d =
    adopt_or_generate lib o dir listen extra (read_file o (cert_path lib dir) d) d

-- `LoadOrCreateCert`. Of the directories that MkdirAll makes only the last is recorded.
unfoldable pub load_or_create_cert :
    Library → Os → String → String → List String → Disk → CertResult × Disk
load_or_create_cert lib o dir listen extra d =
    if not o.can_make_dir
    then (failed no_directory, d)
    else if not o.can_secure_dir
    then (failed directory_not_secured, made_dir (find dir d.dirs) dir d)
    else cert_of_disk lib o dir listen extra (secured_dir dir d)

-- The settings of the listener, with the certificate and its key; versions are those of crypto/tls.
pub record TlsConfig : Type 0 where
  pub cert : String
  pub key : String
  pub min_version : ℕ
  pub next_protos : List String

-- `TLSConfig` in server.go: TLS 1.2 at least, and no HTTP/2.
abbrev pub tls_config : String → String → TlsConfig
tls_config cert key = record {
  cert = cert;
  key = key;
  min_version = 771;
  next_protos = "http/1.1" ∷ [];
}

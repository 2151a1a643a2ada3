-- ===== src/Server/Certificate/Tests.antt =====
-- A first start of the proxy, with a certificate for its listen address, and the next.
use Prim.Native.String.{◌++◌ as str_append}
use kubegate.Prelude.{
  String, true, none, some, [], ◌∷◌, ◌≡◌, ◌≢◌, refl, ◌==◌, if◌then◌else◌, ◌&&◌, arith, eq_iff,
}
use kubegate.Server.Disk.{Disk, find, store, written}
use kubegate.Server.Certificate.{
  Library, Os, Template, generate_self_signed, certificate, cert_path, key_path, add_san, add_sans,
  subject_names, write_cert, write_key, cert_of_disk, load_or_create_cert,
}
use kubegate.Server.Certificate.Stable.{IsWorking, load_or_create_cert_stable}
use kubegate.Server.Certificate.Names.{ListsAsked, IsAsked, IsAnchor, generate_self_signed-IsAnchor}

abbrev library : Library
library = record {
  join = λ dir name. str_append dir (str_append "/" name);
  parse_ip = λ s. if s == "192.168.5.2" then some (192 ∷ 168 ∷ 5 ∷ 2 ∷ []) else none;
  split_host = λ s. if s == "192.168.5.2:8443" then some "192.168.5.2" else none;
  is_key_pair = λ cert key. cert == "CERT" && key == "KEY";
}

abbrev os : Os
os = record {
  random_serial = some 4096;
  now = 1700000000;
  sign = λ t. some ("CERT", "KEY");
  can_make_dir = true;
  can_secure_dir = true;
  can_read = λ p. true;
  can_write = λ p. true;
  can_secure_key = true;
  after_failed_write = λ d. d;
}

abbrev empty_disk : Disk
empty_disk = record { files = []; dirs = [] }

abbrev listen : String
listen = "192.168.5.2:8443"

apart : cert_path library "/tls" ≢ key_path library "/tls"
apart = ground (arith, eq_iff "/tls/tls.crt" "/tls/tls.key")

os-IsWorking : IsWorking library os "/tls"
os-IsWorking = record {
  makes = refl;
  secures = refl;
  reads_cert = refl;
  reads_key = refl;
  secures_key = refl;
}

first_start :
    (load_or_create_cert library os "/tls" listen ("host.lima.internal" ∷ []) empty_disk).0
    ≡ certificate "CERT" "KEY"
unfolding load_or_create_cert cert_of_disk write_cert write_key written find store subject_names
    add_sans add_san
first_start = refl

load_or_create_cert_stable_example :
    (load_or_create_cert library os "/tls" "0.0.0.0:8443" []
      (load_or_create_cert library os "/tls" listen ("host.lima.internal" ∷ []) empty_disk).1).0
    ≡ certificate "CERT" "KEY"
load_or_create_cert_stable_example =
    load_or_create_cert_stable library os os "/tls" listen "0.0.0.0:8443" "CERT" "KEY"
      ("host.lima.internal" ∷ []) [] empty_disk apart os-IsWorking first_start

abbrev pair : String × String
pair = ("CERT", "KEY")

made : generate_self_signed library os listen ("host.lima.internal" ∷ []) ≡ some pair
made = refl

generate_self_signed-IsAnchor_example :
    (t : Template) × (some pair ≡ some pair)
    × IsAnchor 1700000000 t
    × ListsAsked library (IsAsked library listen ("host.lima.internal" ∷ [])) t.sans
generate_self_signed-IsAnchor_example =
    generate_self_signed-IsAnchor library os listen ("host.lima.internal" ∷ []) pair made

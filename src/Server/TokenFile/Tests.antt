-- ===== src/Server/TokenFile/Tests.antt =====
-- A first start, on an empty disk, and the next.
use Prim.Native.String.{◌++◌ as str_append}
use mathlib.Core.Option.{some-injective}
use kubegate.Prelude.{String, true, false, some, [], ◌≡◌, refl, subst}
use kubegate.Text.Lower.{trim_white_space, trim_left, trim_right, is_white_space}
use kubegate.Server.Disk.{Disk, find, store, written}
use kubegate.Server.TokenFile.{Os, token, create_token, token_of_disk, load_or_create_token}
use kubegate.Server.TokenFile.Kept.{IsLong, IsFresh}
use kubegate.Server.TokenFile.Stable.{load_or_create_token_stable}

abbrev drawn : String
drawn = "mK9XHq2vT0bYw7LrZs4dNf8uPj1cGi6eAo5xVt3hQyE"

abbrev os : Os
os = record {
  dir_of = λ p. "/home/dev/.kubegate";
  can_make_dir = true;
  can_secure_dir = true;
  can_read = true;
  can_write = true;
  can_secure_file = true;
  random_token = some drawn;
  after_failed_write = λ d. d;
}

abbrev token_path : String
token_path = "/home/dev/.kubegate/token"

abbrev empty_disk : Disk
empty_disk = record { files = []; dirs = [] }

drawn_fresh : (trim_white_space (str_append drawn "\n") ≡ drawn) × IsLong drawn
unfolding trim_white_space trim_left trim_right is_white_space
drawn_fresh = (refl, refl)

os-IsFresh : IsFresh os
os-IsFresh tok e =
    subst (λ t. (trim_white_space (str_append t "\n") ≡ t) × IsLong t) (some-injective _ _ e)
      drawn_fresh

first_start : (load_or_create_token os token_path false empty_disk).0 ≡ token drawn
unfolding load_or_create_token token_of_disk create_token written find store
first_start = refl

load_or_create_token_stable_example :
    (load_or_create_token os token_path false
      (load_or_create_token os token_path false empty_disk).1).0
    ≡ token drawn
load_or_create_token_stable_example =
    load_or_create_token_stable os os token_path drawn false empty_disk os-IsFresh
      (refl, refl, refl, refl) first_start

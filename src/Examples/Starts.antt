-- ===== src/Examples/Starts.antt =====
-- The theorems on the first start, at a disk on which nothing fails.
use wol_secure_light_switch.Prelude.{
  ◌≡◌, refl, false, none, some, [], ◌∷◌, Text, codes, text_dec, trim_space, trim_left, trim_right,
}
use wol_secure_light_switch.Bootstrap.{
  Disk, Environment, secret, write_new, create_secret, load_or_create_jwt_secret, unquoted,
  check_secret, load_jwt_secret,
}
use wol_secure_light_switch.Bootstrap.Secrets.{
  IsStrong, load_jwt_secret-IsStrong, load_or_create_jwt_secret-kept,
}

abbrev pub disk : Disk
disk = record {
  read_fails = false;
  reread_fails = false;
  random = some (171 ∷ 205 ∷ []);
  raced = none;
  open_fails = false;
  write_fails = false;
  close_fails = false;
  remove_fails = false;
  partial = [];
}

abbrev pub long_secret : Text
long_secret = codes "0123456789abcdef0123456789abcdef"

abbrev pub environment : Environment
environment = record {
  jwt_secret_file = [];
  jwt_secret = long_secret;
  initialize_data = [];
  read_file = λ path. none;
}

pub accepted : (load_jwt_secret environment disk none).1 ≡ secret long_secret
unfolding load_jwt_secret check_secret unquoted trim_space trim_left trim_right text_dec
accepted = refl

load_jwt_secret-IsStrong_example : IsStrong long_secret
load_jwt_secret-IsStrong_example =
    load_jwt_secret-IsStrong environment disk none {s = long_secret} accepted

generated : (load_or_create_jwt_secret disk none).1 ≡ some (codes "abcd")
unfolding load_or_create_jwt_secret create_secret write_new
generated = refl

load_or_create_jwt_secret-kept_example :
    load_or_create_jwt_secret disk (load_or_create_jwt_secret disk none).0
    ≡ (some (codes "abcd"), some (codes "abcd"))
load_or_create_jwt_secret-kept_example =
    load_or_create_jwt_secret-kept disk disk none {s = codes "abcd"} generated refl

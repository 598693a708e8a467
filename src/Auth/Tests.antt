-- ===== src/Auth/Tests.antt =====
-- A file with a comment and one user, credentials that are not encoded, and the theorem at them.
use elrond.Base.{
  ok, err, ◌≡◌, refl, true, none, some, [], ◌∷◌, ◌++◌, Text, codes, text_eq, Dict, lookup, insert,
  remove, is_whitespace, trim_start, trim_end, trim, split, split_once, starts_with,
}
use elrond.Proxy.Headers.{HeaderMapApi}
use elrond.Auth.{
  check, AuthBasic, is_bcrypt, lines, judge, read_line, parse_lines, parse_htpasswd, load, Crypto,
  parse_authorization, is_user, weak_hash,
}
use elrond.Auth.Admits.{check-IsAdmitted, IsAdmitted}

-- one value to a name, every text a value
abbrev dict : HeaderMapApi
dict = record {
  Map = Dict Text;
  get = λ k m. lookup k m;
  insert = λ k v m. insert k v m;
  remove = λ k m. remove k m;
  is_value = λ _. true;
  to_str = λ v. some v;
}

-- a password verifies against its own text behind the mark of bcrypt
abbrev crypto : Crypto
crypto = record {
  decode_base64 = λ s. some s;
  from_utf8 = λ bytes. some bytes;
  verify = λ password hash. some (text_eq hash (codes "$2y$" ++ password));
}

abbrev file : Text
file = codes "# staff\n\nfrodo:$2y$ring\n"

abbrev staff : AuthBasic
staff = record { realm = codes "Shire"; users = (codes "frodo", codes "$2y$ring") ∷ [] }

abbrev asking : Text → Dict Text
asking credentials = (codes "authorization", codes "Basic " ++ credentials) ∷ []

file-loads : load (some file) (codes "Shire") ≡ ok staff
unfolding load parse_htpasswd parse_lines read_line judge lines split trim trim_start trim_end
    is_whitespace starts_with split_once is_bcrypt insert
file-loads = refl

weak-refused : load (some (codes "sam:plain")) (codes "Shire") ≡ err (weak_hash 1 (codes "sam"))
unfolding load parse_htpasswd parse_lines read_line judge lines split trim trim_start trim_end
    is_whitespace starts_with split_once is_bcrypt insert
weak-refused = refl

frodo-passes : check dict (λ m. m) crypto staff (asking (codes "frodo:ring")) ≡ none
unfolding check parse_authorization is_user split_once trim trim_start trim_end is_whitespace lookup
    text_eq
frodo-passes = refl

check-IsAdmitted_example : IsAdmitted dict (λ m. m) crypto file (asking (codes "frodo:ring"))
check-IsAdmitted_example =
    check-IsAdmitted dict (λ m. m) crypto file (codes "Shire") staff (asking (codes "frodo:ring"))
      file-loads frodo-passes

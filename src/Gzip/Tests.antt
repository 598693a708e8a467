-- ===== src/Gzip/Tests.antt =====
-- Header maps as dictionaries, an encoder that puts a mark in front, and the theorem at a page.
use elrond.Base.{
  ℕ, ◌≡◌, refl, ◌↔◌, Bool, true, ◌&&◌, Option, none, some, List, [], ◌∷◌, arith, ltb, leb,
  if◌then◌else◌, all, Text, codes, Dict, lookup, insert, remove, lookup-insert, lookup-remove,
}
use elrond.Proxy.Headers.{HeaderMapApi, IsHeaderMap}
use elrond.Http.{Reply, IsHeaderValue, IsVisible}
use elrond.Gzip.{maybe_compress, encoded, compress_collected, compress_body}
use elrond.Gzip.Faithful.{IsAnswered, maybe_compress-IsAnswered, IsAnswered}

-- a value is its text, if it is visible
abbrev is_visible : Text → Bool
is_visible s = all (λ c. leb 32 c && ltb c 127) s

abbrev dict : HeaderMapApi
dict = record {
  Map = Dict Text;
  get = λ k m. lookup k m;
  insert = λ k v m. insert k v m;
  remove = λ k m. remove k m;
  is_value = is_visible;
  to_str = λ v. if is_visible v then some v else none;
}

dict-IsHeaderMap : IsHeaderMap dict
dict-IsHeaderMap = record {
  get-insert = λ k j v m. lookup-insert k j v m;
  get-remove = λ k j m. lookup-remove k j m;
}

is_visible_iff : (s : Text) → (is_visible s ≡ true) ↔ IsVisible s
is_visible_iff [] = ground arith
is_visible_iff (c ∷ s) = ground (arith, is_visible_iff s)

dict-IsHeaderValue : IsHeaderValue dict
dict-IsHeaderValue = record {
  to_str-IsVisible = λ v s h. ground (arith, is_visible_iff v, is_visible_iff s, h);
  IsVisible-is_value = λ s h. (is_visible_iff s).1 h;
}

abbrev unmark : List ℕ → Option (List ℕ)
unmark [] = none
unmark (_ ∷ bytes) = some bytes

abbrev page : Reply dict
page = record {
  status = 200;
  headers =
      (codes "content-type", codes "text/html; charset=utf-8")
      ∷ (codes "vary", codes "Origin")
      ∷ [];
  body = some (codes "hello");
}

abbrev asking : Dict Text
asking = (codes "accept-encoding", codes "br, gzip;q=0.9") ∷ []

abbrev marked : List ℕ → Option (List ℕ)
marked bytes = some (31 ∷ bytes)

page-compressed :
    (maybe_compress dict marked page asking true [] none 3).body ≡ some (31 ∷ codes "hello")
unfolding maybe_compress compress_body compress_collected encoded lookup
page-compressed = refl

page-tiny : maybe_compress dict marked page asking true [] none 20 ≡ page
unfolding maybe_compress compress_body compress_collected encoded lookup
page-tiny = refl

maybe_compress-IsAnswered_example :
    IsAnswered dict unmark page asking none 3
      (codes "hello")
      (maybe_compress dict marked page asking true [] none 3)
maybe_compress-IsAnswered_example =
    maybe_compress-IsAnswered dict unmark dict-IsHeaderMap dict-IsHeaderValue marked
      (λ b c e. ground (arith, e)) page asking true [] none 3 (codes "hello") refl

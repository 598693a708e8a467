-- ===== src/Gzip/Others.antt =====
-- `maybe_compress` of src/gzip.rs leaves every header alone that it does not write.
use elrond.Base.{
  ℕ, ◌≡◌, refl, ◌∙◌, Bool, true, false, not, ◌||◌, Option, List, ltb, is_some, if-intro,
  option-intro, length, Text, codes, text_eq, decimal,
}
use elrond.Proxy.Headers.{HeaderMapApi, IsHeaderMap}
use elrond.Http.{Reply, get_str}
use elrond.Gzip.{
  vary_of, encoded, exceeds_cap, client_accepts_gzip, content_length, compress_body,
  status_eligible, content_type_eligible, compress_collected, maybe_compress,
}
use elrond.Gzip.Faithful.{is_written}

none_is : (a b c : Bool) → (a || b || c) ≡ false → (a ≡ false) × (b ≡ false) × (c ≡ false)
none_is false false false h = (refl, refl, refl)
none_is false false true h = absurd cc
none_is false true c h = absurd cc
none_is true b c h = absurd cc

module _ (H : HeaderMapApi) (laws : IsHeaderMap H) (gzip_bytes : List ℕ → Option (List ℕ))
    (name : Text) (other : is_written name ≡ false) where
  -- this header is as it was
  abbrev IsKept : Reply H → Reply H → Type 0
  IsKept resp out = H.get name out.headers ≡ H.get name resp.headers

  encoded-IsKept : (resp : Reply H) (compressed : List ℕ) → IsKept resp (encoded H resp compressed)
  unfolding encoded
  encoded-IsKept resp compressed =
      let h = H.insert (codes "content-encoding") (codes "gzip") resp.headers in
      let h' = H.insert (codes "content-length") (decimal (length compressed)) h in
      let vary = vary_of (get_str H (codes "vary") h') in
      let (e, l, v) =
        none_is (text_eq (codes "content-encoding") name) (text_eq (codes "content-length") name)
          (text_eq (codes "vary") name) other in
      let two : H.get name h' ≡ H.get name resp.headers =
        laws.get-insert (codes "content-length") name (decimal (length compressed)) h
        ∙ rw l (
            laws.get-insert (codes "content-encoding") name (codes "gzip") resp.headers
            ∙ rw e refl) in
      if-intro (λ (m : H.Map). H.get name m ≡ H.get name resp.headers) (H.is_value vary) _ _
        (λ _. laws.get-insert (codes "vary") name vary h' ∙ rw v two) (λ _. two)

  compress_collected-IsKept :
      (resp : Reply H) (min_length : ℕ) (collected : List ℕ)
      → IsKept resp (compress_collected H gzip_bytes resp min_length collected)
  unfolding compress_collected
  compress_collected-IsKept resp min_length collected =
      if-intro (IsKept resp) (ltb (length collected) min_length) _ _ (λ _. refl)
        (λ _.
          option-intro (IsKept resp) (gzip_bytes collected) _ _ (λ _. refl)
            (λ c _. encoded-IsKept resp c))

  compress_body-IsKept :
      (resp : Reply H) (min_length : ℕ) → IsKept resp (compress_body H gzip_bytes resp min_length)
  unfolding compress_body
  compress_body-IsKept resp min_length =
      option-intro (IsKept resp) resp.body _ _ (λ _. refl)
        (λ collected _. compress_collected-IsKept resp min_length collected)

  pub maybe_compress-IsKept :
      (resp : Reply H) (req : H.Map) (enabled : Bool) (types : List Text) (max_collect : Option ℕ)
      (min_length : ℕ)
      → H.get name
          (maybe_compress H gzip_bytes resp req enabled types max_collect min_length).headers
        ≡ H.get name resp.headers
  unfolding maybe_compress
  maybe_compress-IsKept resp req enabled types max_collect min_length =
      if-intro (IsKept resp) (not enabled || not (client_accepts_gzip H req)) _ _ (λ _. refl)
        (λ _.
          if-intro (IsKept resp) (not (status_eligible resp.status)) _ _ (λ _. refl)
            (λ _.
              if-intro (IsKept resp) (is_some (H.get (codes "content-encoding") resp.headers)) _ _
                (λ _. refl)
                (λ _.
                  if-intro (IsKept resp) (not (content_type_eligible H resp.headers types)) _ _
                    (λ _. refl)
                    (λ _.
                      if-intro (IsKept resp)
                        (exceeds_cap max_collect (content_length H resp.headers)) _ _ (λ _. refl)
                        (λ _. compress_body-IsKept resp min_length)))))

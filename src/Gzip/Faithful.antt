-- ===== src/Gzip/Faithful.antt =====
-- What `maybe_compress` of src/gzip.rs may do to a response.
use elrond.Base.{
  ℕ, ◌≡◌, refl, ap, ◌∙◌, ◌⊎◌, inl, inr, Bool, true, false, not, ◌||◌, Option, none, some, List, [],
  ◌∷◌, ◌++◌, arith, ltb, if◌then◌else◌, Bool-cases, Option-cases, is_some, All-of, ◌>>=?◌, if-intro,
  length, any, All-append, Text, codes, text_eq, decimal, trim, split, split-behind,
}
use elrond.Proxy.Headers.{HeaderMapApi, IsHeaderMap}
use elrond.Http.{Reply, get_str, IsVisible, IsHeaderValue, same_word}
use elrond.Gzip.Offer.{IsOffered, client_accepts_gzip-IsOffered}
use elrond.Gzip.{
  names_encoding, vary_of, encoded, exceeds_cap, client_accepts_gzip, content_length, compress_body,
  status_eligible, content_type_eligible, compress_collected, maybe_compress,
}

extended-names_encoding :
    (existing : Text) → names_encoding (existing ++ codes ", Accept-Encoding") ≡ true
unfolding names_encoding
extended-names_encoding existing =
    let is_named : Text → Bool = λ p. same_word (trim p) (codes "accept-encoding") in
    let last : any is_named (split b',' (codes " Accept-Encoding")) ≡ true =
      unfold trim split text_eq in refl in
    let (p, ps, e, g) = split-behind is_named b',' existing (codes " Accept-Encoding") last in
    rw e (ground (arith, g))

-- the `Vary` of an encoded response names the header that the encoding depends on
vary_of-names_encoding : (o : Option Text) → names_encoding (vary_of o) ≡ true
unfolding vary_of
vary_of-names_encoding none = unfold names_encoding trim split text_eq in refl
vary_of-names_encoding (some []) = unfold names_encoding trim split text_eq in refl
vary_of-names_encoding (some (c ∷ cs)) = elim (Bool-cases (names_encoding (c ∷ cs))) [
  | inl t ↦ rw t t
  | inr f ↦ rw f (extended-names_encoding (c ∷ cs))
]

vary_of-IsVisible : (o : Option Text) → All-of o IsVisible → IsVisible (vary_of o)
unfolding vary_of names_encoding trim split text_eq
vary_of-IsVisible none h = omega arith
vary_of-IsVisible (some []) h = omega arith
vary_of-IsVisible (some (c ∷ cs)) h =
    if-intro IsVisible (names_encoding (c ∷ cs)) _ _ (λ _. h)
      (λ _. All-append _ (c ∷ cs) (codes ", Accept-Encoding") h (omega arith))

no_test :
    {A : Type 0} (a b c : Bool) (x y z w : A)
    → (a || b || c) ≡ false
    → (if c then x else if b then y else if a then z else w) ≡ w
no_test false false false x y z w h = refl
no_test true b c x y z w h = absurd cc
no_test false true c x y z w h = absurd cc
no_test false false true x y z w h = absurd cc

accepted : (enabled accepts : Bool) → (not enabled || not accepts) ≡ false → accepts ≡ true
accepted enabled accepts h = ground (arith, h)

-- a header that compression writes
abbrev pub is_written : Text → Bool
is_written name =
    text_eq (codes "content-encoding") name
    || text_eq (codes "content-length") name
    || text_eq (codes "vary") name

module _ (H : HeaderMapApi) (inflate : List ℕ → Option (List ℕ)) where
  -- The body is there in the encoding that the headers declare, and nothing else has changed.
  pub record IsEncoded (resp out : Reply H) (collected : List ℕ) : Type 0 where
    pub status : out.status ≡ resp.status
    pub body :
        (compressed : List ℕ) × (out.body ≡ some compressed)
        × (inflate compressed ≡ some collected)
        × (H.get (codes "content-length") out.headers ≡ some (decimal (length compressed)))
    pub encoding : H.get (codes "content-encoding") out.headers ≡ some (codes "gzip")
    pub vary :
        (value : Text) × (H.get (codes "vary") out.headers ≡ some value)
        × (names_encoding value ≡ true)
    pub others :
        (name : Text) → is_written name ≡ false → H.get name out.headers ≡ H.get name resp.headers

  -- The response goes on as it is, or encoded where it was offered.
  abbrev pub IsAnswered : Reply H → H.Map → Option ℕ → ℕ → List ℕ → Reply H → Type 0
  IsAnswered resp req max_collect min_length collected out =
      (out ≡ resp)
      ⊎ (IsOffered H req
          × (is_some (H.get (codes "content-encoding") resp.headers) ≡ false)
          × (exceeds_cap max_collect (content_length H resp.headers) ≡ false)
          × (ltb (length collected) min_length ≡ false)
          × IsEncoded resp out collected)

  module _ (laws : IsHeaderMap H) (values : IsHeaderValue H) where
    to_str-All : (o : Option Text) → All-of (o >>=? λ v. H.to_str v) IsVisible
    to_str-All none = tt
    to_str-All (some v) = elim (Option-cases (H.to_str v)) [
      | inl n ↦ rw n tt
      | inr (s, e) ↦ rw e (values.to_str-IsVisible v s e)
    ]

    -- the last of three headers that has the name, or what was there before them
    get-three :
        (name k1 v1 k2 v2 k3 v3 : Text) (m : H.Map)
        → H.get name (H.insert k3 v3 (H.insert k2 v2 (H.insert k1 v1 m))) ≡ (
            if text_eq k3 name
            then some v3
            else if text_eq k2 name
            then some v2
            else if text_eq k1 name
            then some v1
            else H.get name m)
    get-three name k1 v1 k2 v2 k3 v3 m =
        rw (laws.get-insert k3 name v3, laws.get-insert k2 name v2, laws.get-insert k1 name v1) refl

    encoded-IsEncoded :
        (resp : Reply H) (collected compressed : List ℕ)
        → inflate compressed ≡ some collected
        → IsEncoded resp (encoded H resp compressed) collected
    unfolding encoded
    encoded-IsEncoded resp collected compressed h =
        let len = decimal (length compressed) in
        let h0 = H.insert (codes "content-encoding") (codes "gzip") resp.headers in
        let h1 = H.insert (codes "content-length") len h0 in
        let asked = get_str H (codes "vary") h1 in
        let is_ok = values.IsVisible-is_value _ (vary_of-IsVisible asked (to_str-All _)) in
        let get_at : (name : Text)
            → H.get name (H.insert (codes "vary") (vary_of asked) h1) ≡ (
                if text_eq (codes "vary") name
                then some (vary_of asked)
                else if text_eq (codes "content-length") name
                then some len
                else if text_eq (codes "content-encoding") name
                then some (codes "gzip")
                else H.get name resp.headers) =
          λ name. get-three name _ _ _ _ _ _ _ in
        rw is_ok record {
          status = refl;
          body = (compressed, refl, h, get_at _ ∙ unfold text_eq in refl);
          encoding = get_at _ ∙ unfold text_eq in refl;
          vary = (vary_of asked, get_at _ ∙ unfold text_eq in refl, vary_of-names_encoding asked);
          others = λ name n.
              get_at name
              ∙ no_test (text_eq (codes "content-encoding") name)
                  (text_eq (codes "content-length") name) (text_eq (codes "vary") name) _ _ _ _ n;
        }

    module _ (gzip_bytes : List ℕ → Option (List ℕ)) where
      module _ (gunzips : (b c : List ℕ) → gzip_bytes b ≡ some c → inflate c ≡ some b) where
        compress_collected-IsEncoded :
            (resp : Reply H) (min_length : ℕ) (collected : List ℕ)
            → (compress_collected H gzip_bytes resp min_length collected ≡ resp)
              ⊎ ((ltb (length collected) min_length ≡ false)
                  × IsEncoded resp
                      (compress_collected H gzip_bytes resp min_length collected)
                      collected)
        unfolding compress_collected
        compress_collected-IsEncoded resp min_length collected =
            elim (Bool-cases (ltb (length collected) min_length)) [
              | inl small ↦ rw small (inl refl)
              | inr large ↦ elim (Option-cases (gzip_bytes collected)) [
                | inl n ↦ rw (large, n) (inl refl)
                | inr (c, e) ↦
                    rw (large, e)
                      (inr (refl, encoded-IsEncoded resp collected c (gunzips collected c e)))
              ]
            ]

        compress_body-collected :
            (resp : Reply H) (min_length : ℕ) (collected : List ℕ)
            → resp.body ≡ some collected
            → compress_body H gzip_bytes resp min_length
              ≡ compress_collected H gzip_bytes resp min_length collected
        unfolding compress_body
        compress_body-collected resp min_length collected b =
            ap
              (λ o. elim o [
                | none ↦ record resp { body = some [] }
                | some bytes ↦ compress_collected H gzip_bytes resp min_length bytes
              ])
              b

        -- A response whose body can be collected goes on unchanged, or encoded: then an item of the
        -- request's `Accept-Encoding` names gzip or is `*`, whatever its weight, the response had
        -- no encoding, its declared length is within the cap and its body not a tiny one; the
        -- encoder's inverse gives the body back; `Content-Encoding`, `Content-Length` and `Vary`
        -- describe it; and the status and the other headers are kept.
        pub maybe_compress-IsAnswered :
            (resp : Reply H) (req : H.Map) (enabled : Bool) (types : List Text)
            (max_collect : Option ℕ) (min_length : ℕ) (collected : List ℕ)
            → resp.body ≡ some collected
            → IsAnswered resp req max_collect min_length collected
                (maybe_compress H gzip_bytes resp req enabled types max_collect min_length)
        unfolding maybe_compress
        maybe_compress-IsAnswered resp req enabled types max_collect min_length collected b =
            let Answered : Reply H → Type 0 =
              IsAnswered resp req max_collect min_length collected in
            if-intro Answered (not enabled || not (client_accepts_gzip H req)) _ _ (λ _. inl refl)
              (λ off.
                if-intro Answered (not (status_eligible resp.status)) _ _ (λ _. inl refl)
                  (λ _.
                    if-intro Answered (is_some (H.get (codes "content-encoding") resp.headers)) _ _
                      (λ _. inl refl)
                      (λ plain.
                        if-intro Answered (not (content_type_eligible H resp.headers types)) _ _
                          (λ _. inl refl)
                          (λ _.
                            if-intro Answered
                              (exceeds_cap max_collect (content_length H resp.headers)) _ _
                              (λ _. inl refl)
                              (λ within.
                                rw (compress_body-collected resp min_length collected b)
                                  (elim (compress_collected-IsEncoded resp min_length collected) [
                                    | inl same ↦ inl same
                                    | inr (large, e) ↦ inr (
                                      client_accepts_gzip-IsOffered H req (accepted enabled _ off),
                                      plain,
                                      within,
                                      large,
                                      e,
                                    )
                                  ]))))))

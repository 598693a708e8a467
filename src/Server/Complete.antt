-- ===== src/Server/Complete.antt =====
-- The end of `handle` of src/server.rs: the headers of a completed response.
use elrond.Base.{◌≡◌, ◌∙◌, ◌⊎◌, inl, inr, true, false, Option, unwrap_or, or_else, if-intro, Text}
use elrond.Proxy.Headers.{IsHeaderMap}
use elrond.Http.{Reply}
use elrond.Template.Context.{RequestCtx}
use elrond.Gzip.Faithful.{is_written}
use elrond.Gzip.Others.{maybe_compress-IsKept}
use elrond.Server.{Env, LocationRt, Vhost}
use elrond.Server.Decorate.{
  apply_add_headers, advertise, apply_expiry, expiry_set, last_set, advert_set, decorate-get,
}
use elrond.Server.Handle.{complete, with_headers, max_collect_of}

module _ (E : Env) (laws : IsHeaderMap E.H) where
  open E use {H, Re, now_secs, gzip_bytes}

  -- A header of the response that a location completes is the one of `expires` if that gives it a
  -- value, or else of the last `add_header` that does, or else the advertisement of HTTP/3, or else
  -- the one of the action. Where the response may be compressed, this holds of every header but the
  -- three that compression writes.
  pub complete-get :
      (state : Vhost E) (ctx : RequestCtx) (loc : LocationRt) (req_headers : H.Map) (resp : Reply H)
      (name : Text)
      → (unwrap_or loc.gzip state.gzip ≡ false) ⊎ (is_written name ≡ false)
      → H.get name (complete E state ctx loc req_headers resp).headers
        ≡ or_else (expiry_set H name now_secs loc.expires) (
            or_else (last_set H name ctx loc.add_headers) (
              or_else
                (advert_set H name state.scheme state.h3_advertised_port)
                (H.get name resp.headers)))
  unfolding complete
  complete-get state ctx loc req_headers resp name (inl off) = rw off (
      decorate-get H laws name state.scheme state.h3_advertised_port now_secs loc.expires
        loc.add_headers ctx resp.headers)
  complete-get state ctx loc req_headers resp name (inr other) =
      let expected : Option Text = or_else (expiry_set H name now_secs loc.expires) (
        or_else (last_set H name ctx loc.add_headers) (
          or_else (advert_set H name state.scheme state.h3_advertised_port)
            (H.get name resp.headers))) in
      let decorated =
        decorate-get H laws name state.scheme state.h3_advertised_port now_secs loc.expires
          loc.add_headers ctx resp.headers in
      let added : H.Map =
        apply_add_headers H loc.add_headers ctx
          (advertise H state.scheme state.h3_advertised_port resp.headers) in
      let resp' = with_headers E resp (apply_expiry H now_secs loc.expires added) in
      if-intro (λ (r : Reply H). H.get name r.headers ≡ expected) (unwrap_or loc.gzip state.gzip) _
        _
        (λ _.
          maybe_compress-IsKept H laws gzip_bytes name other resp' req_headers true state.gzip_types
            (max_collect_of E loc.action) state.gzip_min_length
          ∙ decorated)
        (λ _. decorated)

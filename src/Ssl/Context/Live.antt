-- ===== src/Ssl/Context/Live.antt =====
-- Which contexts the members of `SSLContext` in sdk/net/crypto/ssl.cc leave live.
use iggy_cpp_client.Prelude.{
  Bool, false, not, ◌&&◌, ◌||◌, [], ◌==◌, ℕ, ◌≡◌, ◌≢◌, ◌⊎◌, inl, inr, ◌∙◌, sym, ap, true, Option,
  none, some, ◌∷◌, arith, Option-cases,
}
use iggy_cpp_client.Prelude.Errors.{Result, ok, err}
use iggy_cpp_client.Ssl.Options.{SslOptions}
use iggy_cpp_client.Ssl.Wolf.{
  Method, v1_3, Handle, History, Call, cipher_list, created, WolfSsl, is_live,
}
use iggy_cpp_client.Ssl.Context.{
  World, SslContext, init_once, new_context, copy_context, assign_context, free_context,
}
use iggy_cpp_client.Ssl.Context.Effects.{is_live-init_once}
use iggy_cpp_client.Ssl.Context.Outcome.{
  bad_version, no_context, refused, built, new_context-Opening,
}

abbrev pub ctx_of : Option SslContext → Option Handle
ctx_of none = none
ctx_of (some o) = o.ctx

abbrev pub made : Result SslContext → Option SslContext
made (ok o) = some o
made (err e) = none

abbrev refuses : WolfSsl → Handle → Call → History → Bool → Bool
refuses lib c (cipher_list d s) h before =
    (d == c && not (lib.set_cipher_list h d s == lib.ssl_success)) || before
refuses lib c _ h before = before

-- Whether WolfSSL refused a cipher list that it was handed for a handle.
unfoldable pub was_refused : WolfSsl → Handle → History → Bool
was_refused lib c [] = false
was_refused lib c (e ∷ h) = refuses lib c e h (was_refused lib c h)

-- What was refused before stays refused.
abbrev pub Recalls : WolfSsl → History → History → Type 0
Recalls lib h k = (c : Handle) → was_refused lib c h ≡ true → was_refused lib c k ≡ true

-- A handle that is live after an operation was live before, and the variable that the operation
-- writes did not hold it; or that variable holds it now; or its ciphers were refused.
abbrev pub Kept :
    WolfSsl → History → History → Option SslContext → Option SslContext → Handle → Type 0
Kept lib h k old new c =
    ((is_live c h ≡ true) × (ctx_of old ≢ some c))
    ⊎ ((ctx_of new ≡ some c) ⊎ (was_refused lib c k ≡ true))

-- What a creation and a release leave live.
created-live :
    (m : Method) (x : Option Handle) (h : History) (c : Handle)
    → is_live c (created m x ∷ h) ≡ true
    → (is_live c h ≡ true) ⊎ (x ≡ some c)
unfolding is_live
created-live m none h c e = inl e
created-live m (some d) h c e = ground arith

pub free_context-live :
    (this : SslContext) (w : World) (c : Handle)
    → is_live c (free_context this w).history ≡ true
    → (is_live c w.history ≡ true) × (this.ctx ≢ some c)
unfolding free_context is_live
free_context-live this w c e = elim (Option-cases this.ctx) [
  | inl null ↦ ground arith
  | inr (d, holds) ↦ ground arith
]

module _ (lib : WolfSsl) where
  pub free_context-Recalls :
      (this : SslContext) (w : World) → Recalls lib w.history (free_context this w).history
  unfolding free_context was_refused
  free_context-Recalls this w c e = elim (Option-cases this.ctx) [
    | inl null ↦ ground arith
    | inr (d, holds) ↦ ground arith
  ]

  init_once-Recalls : (w : World) → Recalls lib w.history (init_once w).history
  unfolding init_once was_refused
  init_once-Recalls w c e = ground arith

  pub new_context-Recalls :
      (at env : ℕ) (o : SslOptions) (w : World)
      → Recalls lib w.history (new_context lib at env o w).1.history
  unfolding was_refused
  new_context-Recalls at env o w c e =
      let before = init_once-Recalls w c e in
      elim (new_context-Opening lib at env o w) [
        | bad_version _ r ↦ ap (λ x. was_refused lib c x.1.history) r ∙ before
        | no_context m n _ missing r ↦ ap (λ x. was_refused lib c x.1.history) r ∙ before
        | refused m n d _ _ unlike r ↦
            ap (λ x. was_refused lib c x.1.history) r ∙ ground (arith, before)
        | built m n d _ new _ r ↦ ap (λ x. was_refused lib c x.1.history) r ∙ ground (arith, before)
      ]

  -- What is live after the constructor was live before, or the object holds it, or its ciphers were
  -- refused.
  pub new_context-live :
      (at env : ℕ) (o : SslOptions) (w : World) (c : Handle)
      → is_live c (new_context lib at env o w).1.history ≡ true
      → (is_live c w.history ≡ true)
        ⊎ ((ctx_of (made (new_context lib at env o w).0) ≡ some c)
            ⊎ (was_refused lib c (new_context lib at env o w).1.history ≡ true))
  unfolding is_live was_refused
  new_context-live at env o w c e = elim (new_context-Opening lib at env o w) [
    | bad_version _ r ↦ inl (was (live_then r))
    | no_context m n _ missing r ↦ inl (was (live_then r))
    | refused m n d _ _ unlike r ↦
        elim (created-live m (some d) (init_once w).history c (live_then r)) [
          | inl before ↦ inl (was before)
          | inr now ↦ inr (inr (ap (λ x. was_refused lib c x.1.history) r ∙ ground arith))
        ]
    | built m n d _ new _ r ↦ elim (created-live m (some d) (init_once w).history c (live_then r)) [
      | inl before ↦ inl (was before)
      | inr now ↦ inr (inl (ap (λ x. ctx_of (made x.0)) r ∙ now))
    ]
  ]
    where
      live_then :
          {r : Result SslContext × World}
          → new_context lib at env o w ≡ r
          → is_live c r.1.history ≡ true
      live_then r = sym (ap (λ x. is_live c x.1.history) r) ∙ e

      was : is_live c (init_once w).history ≡ true → is_live c w.history ≡ true
      was h = sym (is_live-init_once c w) ∙ h

  pub copy_context-live :
      (o : SslContext) (w : World) (c : Handle)
      → is_live c (copy_context lib o w).1.history ≡ true
      → (is_live c w.history ≡ true) ⊎ (ctx_of (made (copy_context lib o w).0) ≡ some c)
  unfolding copy_context is_live
  copy_context-live o w c e = created-live v1_3 (lib.ctx_new w.history v1_3) w.history c e

  pub copy_context-Recalls :
      (o : SslContext) (w : World) → Recalls lib w.history (copy_context lib o w).1.history
  unfolding copy_context was_refused
  copy_context-Recalls o w c e = e

  pub assign_context-live :
      (this other : SslContext) (w : World) (c : Handle)
      → is_live c (assign_context lib this other w).1.history ≡ true
      → ((is_live c w.history ≡ true) × (this.ctx ≢ some c))
        ⊎ (ctx_of (made (assign_context lib this other w).0) ≡ some c)
  unfolding assign_context is_live
  assign_context-live this other w c e =
      let freed = (free_context this w).history in
      elim (created-live v1_3 (lib.ctx_new freed v1_3) freed c e) [
        | inl before ↦ inl (free_context-live this w c before)
        | inr now ↦ inr now
      ]

  pub assign_context-Recalls :
      (this other : SslContext) (w : World)
      → Recalls lib w.history (assign_context lib this other w).1.history
  unfolding assign_context was_refused
  assign_context-Recalls this other w c e = free_context-Recalls this w c e

-- ===== src/Ssl/Context/Effects.antt =====
-- What the members of `SSLContext` in sdk/net/crypto/ssl.cc do to the library's state.
use mathlib.Core.Option.{some-injective}
use iggy_cpp_client.Prelude.{
  subst, ℕ, ◌≡◌, refl, ◌∙◌, sym, inl, inr, true, false, some, ◌∷◌, ◌==◌, arith, Bool-cases,
  Option-cases,
}
use iggy_cpp_client.Prelude.Bytes.{c_str}
use iggy_cpp_client.Prelude.Errors.{Result, ok, err, Result-cases}
use iggy_cpp_client.Ssl.Version.{ProtocolVersion, tlsv1_2, tlsv1_3, get_protocol_version_name}
use iggy_cpp_client.Ssl.Options.{SslOptions}
use iggy_cpp_client.Ssl.Join.{join_ciphers}
use iggy_cpp_client.Ssl.Wolf.{
  Method, v1_2, v1_3, Handle, cert_manager, WolfSsl, is_live, initialized, IsSafe, IsFresh,
}
use iggy_cpp_client.Ssl.Context.{
  World, SslContext, and_then, init_once, require, raise_ssl_error, open_context, open_for,
  unsupported_version, finish, new_context,
}

-- The history is safe, and the flag says whether the library is initialised.
pub record IsGood (w : World) : Type 0 where
  pub safe : IsSafe w.history
  pub known : w.init_done ≡ initialized w.history

-- Live handles stay live, and the library stays initialised.
pub record Keeps (v w : World) : Type 0 where
  pub live : (c : Handle) → is_live c v.history ≡ true → is_live c w.history ≡ true
  pub ready : initialized v.history ≡ true → initialized w.history ≡ true

pub Keeps-refl : (w : World) → Keeps w w
Keeps-refl w = record { live = λ c h. h; ready = λ h. h }

pub Keeps-trans : {u v w : World} → Keeps u v → Keeps v w → Keeps u w
Keeps-trans a b = record { live = λ c h. b.live c (a.live c h); ready = λ h. b.ready (a.ready h) }

-- How a member that makes a handle ends: it throws, or the handle is new and live.
abbrev Opens : World → Result Handle × World → Type 0
Opens v (err e, w) = IsGood w × Keeps v w
Opens v (ok c, w) =
    IsGood w × Keeps v w × (is_live c v.history ≡ false) × (is_live c w.history ≡ true)

-- How a member that makes an object ends: it throws, or what the object holds is new and live.
abbrev pub Builds : World → Result SslContext × World → Type 0
Builds v (err e, w) = IsGood w × Keeps v w
Builds v (ok o, w) =
    IsGood w
    × Keeps v w
    × (initialized w.history ≡ true)
    × ((c : Handle) → o.ctx ≡ some c → (is_live c v.history ≡ false) × (is_live c w.history ≡ true))

-- How the last steps of the constructor end, on the handle that it has opened.
abbrev Finishes : Handle → World → Result SslContext × World → Type 0
Finishes c v (err e, w) = IsGood w × Keeps v w
Finishes c v (ok o, w) = IsGood w × Keeps v w × (o.ctx ≡ some c)

init_once-effect :
    (w : World)
    → IsGood w
    → IsGood (init_once w) × Keeps w (init_once w) × (initialized (init_once w).history ≡ true)
unfolding init_once is_live initialized
init_once-effect w g = elim (Bool-cases w.init_done) [
  | inl done ↦ simp done (g, Keeps-refl w, sym g.known ∙ done)
  | inr fresh ↦ simp fresh (
    record { safe = (sym g.known ∙ fresh, g.safe); known = refl },
    record { live = λ c h. h; ready = λ h. refl },
    refl,
  )
]

-- `init_once` makes no handle.
pub is_live-init_once :
    (c : Handle) (w : World) → is_live c (init_once w).history ≡ is_live c w.history
unfolding init_once is_live
is_live-init_once c w = ground arith

module _ (lib : WolfSsl) (law : IsFresh lib) where
  open_context-effect :
      (m : Method) (version : ℕ) (w : World)
      → IsGood w
      → initialized w.history ≡ true
      → Opens w (open_context lib m version w)
  unfolding open_context raise_ssl_error is_live initialized
  open_context-effect m version w g ready = elim (Option-cases (lib.ctx_new w.history m)) [
    | inl e ↦
        rw (e, require)
          (
            record { safe = (tt, (ready, g.safe)); known = g.known },
            record { live = λ c h. h; ready = λ h. h },
          )
    | inr (c, e) ↦
        rw (e, require)
          (
            record {
              safe = (ground arith, ((ready, law.fresh w.history m c e), g.safe));
              known = g.known;
            },
            record { live = λ d h. ground arith; ready = λ h. h },
            law.fresh w.history m c e,
            ground arith,
          )
  ]

  unsupported_version-effect :
      (v : ProtocolVersion) (w : World) → IsGood w → Opens w (unsupported_version lib v w)
  unfolding unsupported_version
  unsupported_version-effect v w g = elim (Result-cases (get_protocol_version_name v)) [
    | inl (name, e) ↦ rw (e, unsupported_version) (g, Keeps-refl w)
    | inr (x, e) ↦ rw (e, unsupported_version) (g, Keeps-refl w)
  ]

  open_for-effect :
      (v : ProtocolVersion) (w : World)
      → IsGood w
      → initialized w.history ≡ true
      → Opens w (open_for lib v w)
  unfolding open_for
  open_for-effect v w g ready = elim (Bool-cases (v == tlsv1_2)) [
    | inl two ↦ rw (two, open_for) (open_context-effect v1_2 lib.tls1_2_version w g ready)
    | inr not_two ↦ elim (Bool-cases (v == tlsv1_3)) [
      | inl three ↦
          rw (not_two, three, open_for) (open_context-effect v1_3 lib.tls1_3_version w g ready)
      | inr other ↦ rw (not_two, other, open_for) (unsupported_version-effect v w g)
    ]
  ]

  finish-effect :
      (at env : ℕ) (o : SslOptions) (c : Handle) (w : World)
      → IsGood w
      → initialized w.history ≡ true
      → is_live c w.history ≡ true
      → Finishes c w (finish lib at env o c w)
  unfolding finish raise_ssl_error is_live initialized
  finish-effect at env o c w g ready live =
      elim (Bool-cases (
        lib.set_cipher_list (cert_manager (some c) ∷ w.history) c (c_str (join_ciphers o.ciphers))
        == lib.ssl_success)) [
          | inl accepted ↦ rw accepted (
            record { safe = (live, (live, g.safe)); known = g.known },
            record { live = λ d h. h; ready = λ h. h },
            refl,
          )
          | inr refused ↦ rw refused (
            record { safe = (tt, (live, (live, g.safe))); known = g.known },
            record { live = λ d h. h; ready = λ h. h },
          )
        ]

  Builds-finish :
      (u v : World) (c : Handle) (r : Result SslContext × World)
      → Keeps u v
      → initialized v.history ≡ true
      → is_live c u.history ≡ false
      → is_live c v.history ≡ true
      → Finishes c v r
      → Builds u r
  Builds-finish u v c (err e, w) k ready fresh live (g, k') = (g, Keeps-trans k k')
  Builds-finish u v c (ok o, w) k ready fresh live (g, k', same) = (
    g,
    Keeps-trans k k',
    k'.ready ready,
    λ d h.
        subst (λ e. (is_live e u.history ≡ false) × (is_live e w.history ≡ true))
          (some-injective c d (sym same ∙ h)) (fresh, k'.live c live),
  )

  Builds-open :
      (u v : World) (at env : ℕ) (o : SslOptions) (r : Result Handle × World)
      → Keeps u v
      → ((c : Handle) → is_live c v.history ≡ is_live c u.history)
      → initialized v.history ≡ true
      → Opens v r
      → Builds u (and_then r (finish lib at env o))
  Builds-open u v at env o (err e, w) k same ready (g, k') = (g, Keeps-trans k k')
  Builds-open u v at env o (ok c, w) k same ready (g, k', fresh, live) =
      Builds-finish u w c _ (Keeps-trans k k') (k'.ready ready) (sym (same c) ∙ fresh) live
        (finish-effect at env o c w g (k'.ready ready) live)

  -- The constructor from options.
  pub new_context-effect :
      (at env : ℕ) (o : SslOptions) (w : World) → IsGood w → Builds w (new_context lib at env o w)
  unfolding new_context
  new_context-effect at env o w g =
      let (good, kept, ready) = init_once-effect w g in
      Builds-open w (init_once w) at env o _ kept (λ c. is_live-init_once c w) ready
        (open_for-effect o.minimum_supported_protocol_version (init_once w) good ready)

-- ===== src/Ssl/Context/Replace.antt =====
-- What the copy constructor, the destructor and the assignments of `SSLContext` in
-- sdk/net/crypto/ssl.cc do to the library's state.
use iggy_cpp_client.Prelude.{
  ◌≡◌, refl, ◌≢◌, ◌⊎◌, inl, inr, true, false, Option, none, some, ◌==◌, arith, Bool-cases,
  Option-cases, ap, ==_iff,
}
use iggy_cpp_client.Prelude.Errors.{Result, ok, err}
use iggy_cpp_client.Ssl.Wolf.{
  Method, v1_3, Handle, created, freed, cert_manager, WolfSsl, is_live, initialized, IsFresh,
}
use iggy_cpp_client.Ssl.Context.{
  World, SslContext, copy_context, free_context, assign_context, record_call,
}
use iggy_cpp_client.Ssl.Context.Effects.{IsGood, Keeps, Keeps-trans, Builds}

holds_or_not : (x : Option Handle) (c : Handle) → (x ≡ some c) ⊎ (x ≢ some c)
holds_or_not none c = inr (λ h. cc)
holds_or_not (some d) c = elim (Bool-cases (d == c)) [
  | inl same ↦ inl (ap some ((==_iff d c).0 same))
  | inr apart ↦ inr (λ h. ground arith)
]

module _ (lib : WolfSsl) (law : IsFresh lib) where
  created-IsGood :
      (m : Method) (w : World)
      → IsGood w
      → initialized w.history ≡ true
      → IsGood (record_call (created m (lib.ctx_new w.history m)) w)
  unfolding initialized
  created-IsGood m w g ready = elim (Option-cases (lib.ctx_new w.history m)) [
    | inl e ↦ record { safe = rw e (ready, g.safe); known = g.known }
    | inr (c, e) ↦ record {
      safe = rw e ((ready, law.fresh w.history m c e), g.safe);
      known = g.known;
    }
  ]

  created-Keeps :
      (m : Method) (r : Option Handle) (w : World) → Keeps w (record_call (created m r) w)
  unfolding is_live initialized
  created-Keeps m none w = record { live = λ d h. h; ready = λ h. h }
  created-Keeps m (some c) w = record { live = λ d h. ground arith; ready = λ h. h }

  created-live :
      (m : Method) (r : Option Handle) (w : World) (c : Handle)
      → r ≡ some c
      → is_live c (record_call (created m r) w).history ≡ true
  unfolding is_live
  created-live m none w c h = absurd (cc)
  created-live m (some d) w c h = ground arith

  manager-IsGood :
      (r : Option Handle) (w : World)
      → IsGood w
      → ((c : Handle) → r ≡ some c → is_live c w.history ≡ true)
      → IsGood (record_call (cert_manager r) w)
  unfolding initialized
  manager-IsGood none w g live = record { safe = (tt, g.safe); known = g.known }
  manager-IsGood (some c) w g live = record { safe = (live c refl, g.safe); known = g.known }

  manager-Keeps : (r : Option Handle) (w : World) → Keeps w (record_call (cert_manager r) w)
  unfolding is_live initialized
  manager-Keeps r w = record { live = λ c h. h; ready = λ h. h }

  -- The copy constructor.
  pub copy_context-effect :
      (other : SslContext) (w : World)
      → IsGood w
      → initialized w.history ≡ true
      → Builds w (copy_context lib other w)
  unfolding copy_context
  copy_context-effect other w g ready =
      let made = lib.ctx_new w.history v1_3 in
      let w' = record_call (created v1_3 made) w in
      let live = λ (c : Handle) (e : made ≡ some c). created-live v1_3 made w c e in
      let kept = created-Keeps v1_3 made w in
      (
        manager-IsGood made w' (created-IsGood v1_3 w g ready) live,
        Keeps-trans kept (manager-Keeps made w'),
        (manager-Keeps made w').ready (kept.ready ready),
        λ c e. (law.fresh w.history v1_3 c e, (manager-Keeps made w').live c (live c e)),
      )

  -- Freeing what an object holds: every other handle stays live.
  pub record Frees (this : Option Handle) (v w : World) : Type 0 where
    pub good : IsGood w
    pub ready : initialized v.history ≡ true → initialized w.history ≡ true
    pub others :
        (d : Handle) → is_live d v.history ≡ true → this ≢ some d → is_live d w.history ≡ true

  freed-effect :
      (c : Handle) (w : World)
      → IsGood w
      → is_live c w.history ≡ true
      → Frees (some c) w (record_call (freed c) w)
  unfolding is_live initialized
  freed-effect c w g live = record {
    good = record { safe = (live, g.safe); known = g.known };
    ready = λ h. h;
    others = λ d h ne. elim (Bool-cases (c == d)) [
      | inl same ↦ absurd (ne (ap some ((==_iff c d).0 same)))
      | inr apart ↦ rw apart h
    ];
  }

  unfreed : (w : World) → IsGood w → Frees none w w
  unfreed w g = record { good = g; ready = λ h. h; others = λ d h _. h }

  -- The destructor.
  pub free_context-effect :
      (this : SslContext) (w : World)
      → IsGood w
      → ((c : Handle) → this.ctx ≡ some c → is_live c w.history ≡ true)
      → Frees this.ctx w (free_context this w)
  unfolding free_context
  free_context-effect this w g live = go this.ctx live
    where
      go :
          (x : Option Handle)
          → ((c : Handle) → x ≡ some c → is_live c w.history ≡ true)
          → Frees x w (elim x [ none ↦ w | some c ↦ record_call (freed c) w ])
      go none l = unfreed w g
      go (some c) l = freed-effect c w g (l c refl)

  -- How copy assignment ends: it does not throw; the handles of other objects stay live; the new
  -- handle is live, and if it was live before, it is the one that this object held.
  abbrev pub Replaces : SslContext → World → Result SslContext × World → Type 0
  Replaces this v (err e, w) = ⊥
  Replaces this v (ok o, w) =
      IsGood w
      × (initialized w.history ≡ true)
      × ((d : Handle) → is_live d v.history ≡ true → this.ctx ≢ some d → is_live d w.history ≡ true)
      × ((c : Handle)
          → o.ctx ≡ some c
          → (is_live c w.history ≡ true) × ((is_live c v.history ≡ false) ⊎ (this.ctx ≡ some c)))

  pub assign_context-effect :
      (this other : SslContext) (w : World)
      → IsGood w
      → initialized w.history ≡ true
      → ((c : Handle) → this.ctx ≡ some c → is_live c w.history ≡ true)
      → Replaces this w (assign_context lib this other w)
  unfolding assign_context
  assign_context-effect this other w g ready live =
      let u = free_context this w in
      let f = free_context-effect this w g live in
      let made = lib.ctx_new u.history v1_3 in
      let kept = created-Keeps v1_3 made u in
      (
        created-IsGood v1_3 u f.good (f.ready ready),
        kept.ready (f.ready ready),
        λ d h ne. kept.live d (f.others d h ne),
        λ c e. (created-live v1_3 made u c e, was c (law.fresh u.history v1_3 c e)),
      )
    where
      was :
          (c : Handle)
          → is_live c (free_context this w).history ≡ false
          → (is_live c w.history ≡ false) ⊎ (this.ctx ≡ some c)
      was c gone = elim (holds_or_not this.ctx c) [
        | inl held ↦ inr held
        | inr other_one ↦ elim (Bool-cases (is_live c w.history)) [
          | inr dead ↦ inl dead
          | inl alive ↦ absurd (cc ((free_context-effect this w g live).others c alive other_one))
        ]
      ]

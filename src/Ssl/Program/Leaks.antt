-- ===== src/Ssl/Program/Leaks.antt =====
-- Which contexts a program over `SSLContext` objects (sdk/net/crypto/ssl.cc) leaves live.
use iggy_cpp_client.Prelude.{
  ℕ, ◌≡◌, refl, ◌≢◌, ◌⊎◌, inl, inr, ◌∙◌, sym, ap, true, Option, none, some, List, [], ◌∷◌, ◌==◌,
  Bool-cases,
}
use iggy_cpp_client.Prelude.Errors.{Result, ok, err}
use iggy_cpp_client.Ssl.Options.{SslOptions}
use iggy_cpp_client.Ssl.Wolf.{Handle, History, WolfSsl, is_live}
use iggy_cpp_client.Ssl.Context.{
  World, SslContext, new_context, copy_context, move_context, assign_context, move_assign_context,
  free_context,
}
use iggy_cpp_client.Ssl.Context.Live.{
  ctx_of, made, was_refused, Recalls, Kept, free_context-live, free_context-Recalls,
  new_context-live, new_context-Recalls, copy_context-live, copy_context-Recalls,
  assign_context-live, assign_context-Recalls,
}
use iggy_cpp_client.Ssl.Program.{
  Slots, update, Program, Op, constructed, copied, moved, assigned, move_assigned, destroyed,
  construct, copy, move, assign, move_assign, destroy, placed, step, run, start,
}
use iggy_cpp_client.Ssl.Program.Slots.{update-cases}

-- Every live handle is held by a variable, or WolfSSL refused the ciphers for it.
abbrev pub Held : WolfSsl → History → Slots → Type 0
Held lib h slots =
    (c : Handle)
    → is_live c h ≡ true
    → ((i : ℕ) × (ctx_of (slots i) ≡ some c)) ⊎ (was_refused lib c h ≡ true)

update_self : (slots : Slots) (i : ℕ) (x : Option SslContext) → update slots i x i ≡ x
update_self slots i x = elim (update-cases slots i x i) [
  | inl (_, u) ↦ u
  | inr (ne, _) ↦ absurd (ne refl)
]

module _ (lib : WolfSsl) where
  Held-update :
      (h k : History) (slots : Slots) (i : ℕ) (x : Option SslContext)
      → Held lib h slots
      → Recalls lib h k
      → ((c : Handle) → is_live c k ≡ true → Kept lib h k (slots i) x c)
      → Held lib k (update slots i x)
  Held-update h k slots i x held recalls kept c e = elim (kept c e) [
    | inr (inl now) ↦ inl (i, ap ctx_of (update_self slots i x) ∙ now)
    | inr (inr no_ciphers) ↦ inr no_ciphers
    | inl (before, apart) ↦ elim (held c before) [
      | inr no_ciphers ↦ inr (recalls c no_ciphers)
      | inl (j, at_j) ↦ elim (update-cases slots i x j) [
        | inl (same, _) ↦ absurd (apart (ap (λ l. ctx_of (slots l)) same ∙ at_j))
        | inr (_, u) ↦ inl (j, ap ctx_of u ∙ at_j)
      ]
    ]
  ]

  -- A variable takes over what another holds.
  Held-hand_over :
      (h k : History) (slots : Slots) (i j : ℕ) (rest new : SslContext)
      → Held lib h slots
      → Recalls lib h k
      → ctx_of (slots j) ≡ new.ctx
      → ((c : Handle) → is_live c k ≡ true → (is_live c h ≡ true) × (ctx_of (slots i) ≢ some c))
      → Held lib k (update (update slots j (some rest)) i (some new))
  Held-hand_over h k slots i j rest new held recalls same kept c e =
      let (before, apart) = kept c e in
      elim (held c before) [
        | inr no_ciphers ↦ inr (recalls c no_ciphers)
        | inl (l, at_l) ↦ elim (update-cases slots j (some rest) l) [
          | inl (at_j, _) ↦ inl (
            i,
            ap ctx_of (update_self (update slots j (some rest)) i (some new))
                ∙ sym same
                ∙ ap (λ n. ctx_of (slots n)) at_j
                ∙ at_l,
          )
          | inr (_, u) ↦ elim (update-cases (update slots j (some rest)) i (some new) l) [
            | inl (at_i, _) ↦ absurd (apart (ap (λ n. ctx_of (slots n)) at_i ∙ at_l))
            | inr (_, v) ↦ inl (l, ap ctx_of (v ∙ u) ∙ at_l)
          ]
        ]
      ]

  placed-Held :
      (i : ℕ) (p : Program) (r : Result SslContext × World)
      → Held lib p.world.history p.slots
      → Recalls lib p.world.history r.1.history
      → ((c : Handle)
          → is_live c r.1.history ≡ true
          → Kept lib p.world.history r.1.history (p.slots i) (made r.0) c)
      → Held lib (placed i p.slots r).world.history (placed i p.slots r).slots
  placed-Held i p (ok o, w) held recalls kept c live =
      Held-update p.world.history w.history p.slots i (some o) held recalls kept c live
  placed-Held i p (err e, w) held recalls kept c live = elim (kept c live) [
    | inr (inl now) ↦ absurd (cc)
    | inr (inr no_ciphers) ↦ inr no_ciphers
    | inl (before, _) ↦ elim (held c before) [
      | inl holder ↦ inl holder
      | inr no_ciphers ↦ inr (recalls c no_ciphers)
    ]
  ]

  module _ (p : Program) (held : Held lib p.world.history p.slots) where
    -- Of the program after an operation.
    abbrev HeldIn : Program → Type 0
    HeldIn q = Held lib q.world.history q.slots

    constructed-Held :
        (i at env : ℕ) (o : SslOptions) (x : Option SslContext)
        → p.slots i ≡ x
        → HeldIn (constructed lib i at env o x p)
    constructed-Held i at env o (some this) e = held
    constructed-Held i at env o none e =
        placed-Held i p (new_context lib at env o p.world) held
          (new_context-Recalls lib at env o p.world)
          λ c live. elim (new_context-live lib at env o p.world c live) [
            | inl before ↦ inl (before, λ h. cc)
            | inr other ↦ inr other
          ]

    copied-Held : (i : ℕ) (x y : Option SslContext) → p.slots i ≡ x → HeldIn (copied lib i x y p)
    copied-Held i (some this) y e = held
    copied-Held i none none e = held
    copied-Held i none (some o) e =
        placed-Held i p (copy_context lib o p.world) held (copy_context-Recalls lib o p.world)
          λ c live. elim (copy_context-live lib o p.world c live) [
            | inl before ↦ inl (before, λ h. cc)
            | inr now ↦ inr (inl now)
          ]

    moved-Held :
        (i j : ℕ) (x y : Option SslContext)
        → p.slots i ≡ x
        → p.slots j ≡ y
        → HeldIn (moved lib i j x y p)
    unfolding move_context
    moved-Held i j (some this) y e f = held
    moved-Held i j none none e f = held
    moved-Held i j none (some o) e f =
        Held-hand_over p.world.history p.world.history p.slots i j _ _ held (λ c r. r) (ap ctx_of f)
          (λ c live. (live, λ h. cc))

    copy_assigned-Held :
        (i : ℕ) (x y : Option SslContext) → p.slots i ≡ x → HeldIn (assigned lib i x y p)
    copy_assigned-Held i none y e = held
    copy_assigned-Held i (some this) none e = held
    copy_assigned-Held i (some this) (some other) e =
        placed-Held i p (assign_context lib this other p.world) held
          (assign_context-Recalls lib this other p.world)
          λ c live. elim (assign_context-live lib this other p.world c live) [
            | inl (before, apart) ↦ inl (before, λ h. apart (ap ctx_of (sym e) ∙ h))
            | inr now ↦ inr (inl now)
          ]

    move_assigned-Held :
        (i j : ℕ) (x y : Option SslContext)
        → p.slots i ≡ x
        → p.slots j ≡ y
        → HeldIn (move_assigned lib i j x y p)
    unfolding move_assign_context
    move_assigned-Held i j none y e f = held
    move_assigned-Held i j (some this) none e f = held
    move_assigned-Held i j (some this) (some other) e f =
        Held-hand_over p.world.history (free_context this p.world).history p.slots i j _ _ held
          (free_context-Recalls lib this p.world) (ap ctx_of f)
          (λ c live.
            let (before, apart) = free_context-live this p.world c live in
            (before, λ h. apart (ap ctx_of (sym e) ∙ h)))

    destroyed-Held : (i : ℕ) (x : Option SslContext) → p.slots i ≡ x → HeldIn (destroyed lib i x p)
    destroyed-Held i none e = held
    destroyed-Held i (some this) e =
        Held-update p.world.history (free_context this p.world).history p.slots i none held
          (free_context-Recalls lib this p.world)
          λ c live.
            let (before, apart) = free_context-live this p.world c live in
            inl (before, λ h. apart (ap ctx_of (sym e) ∙ h))

  step-Held :
      (op : Op) (p : Program)
      → Held lib p.world.history p.slots
      → Held lib (step lib op p).world.history (step lib op p).slots
  unfolding step
  step-Held (construct i at env o) p h = constructed-Held p h i at env o (p.slots i) refl
  step-Held (copy i j) p h = copied-Held p h i (p.slots i) (p.slots j) refl
  step-Held (move i j) p h = moved-Held p h i j (p.slots i) (p.slots j) refl refl
  step-Held (assign i j) p h = elim (Bool-cases (i == j)) [
    | inl self ↦ rw self h
    | inr other ↦ rw other (copy_assigned-Held p h i (p.slots i) (p.slots j) refl)
  ]
  step-Held (move_assign i j) p h = elim (Bool-cases (i == j)) [
    | inl self ↦ rw self h
    | inr other ↦ rw other (move_assigned-Held p h i j (p.slots i) (p.slots j) refl refl)
  ]
  step-Held (destroy i) p h = destroyed-Held p h i (p.slots i) refl

  run_from-Held :
      (ops : List Op) (p : Program)
      → Held lib p.world.history p.slots
      → Held lib (run lib ops p).world.history (run lib ops p).slots
  unfolding run
  run_from-Held [] p h = h
  run_from-Held (op ∷ ops) p h = run_from-Held ops (step lib op p) (step-Held op p h)

  start-Held : Held lib start.world.history start.slots
  unfolding is_live
  start-Held c e = absurd (cc)

  -- After any sequence of operations each context that is live is held by a variable, but for those
  -- for which WolfSSL refused the ciphers: nothing else is leaked.
  pub run-Held :
      (ops : List Op) → Held lib (run lib ops start).world.history (run lib ops start).slots
  run-Held ops = run_from-Held ops start start-Held

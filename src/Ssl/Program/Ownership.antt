-- ===== src/Ssl/Program/Ownership.antt =====
-- No sequence of constructions, copies, moves, assignments and destructions of `SSLContext` objects
-- (sdk/net/crypto/ssl.cc) frees a context twice or uses one that is freed.
use iggy_cpp_client.Prelude.{
  ℕ, ◌≡◌, refl, ◌≢◌, ◌∙◌, sym, ap, subst, true, Option, none, some, List, [], ◌∷◌, ◌==◌, arith,
  Bool-cases, inl, inr,
}
use iggy_cpp_client.Prelude.Errors.{Result, ok, err}
use iggy_cpp_client.Ssl.Options.{SslOptions}
use iggy_cpp_client.Ssl.Wolf.{Handle, WolfSsl, IsFresh, IsSafe, is_live, initialized}
use iggy_cpp_client.Ssl.Context.{World, SslContext, move_context, move_assign_context, free_context}
use iggy_cpp_client.Ssl.Context.Effects.{IsGood, Builds, new_context-effect}
use iggy_cpp_client.Ssl.Context.Replace.{
  Frees, Replaces, copy_context-effect, free_context-effect, assign_context-effect,
}
use iggy_cpp_client.Ssl.Context.Live.{ctx_of}
use iggy_cpp_client.Ssl.Program.{
  Program, Op, constructed, copied, moved, assigned, move_assigned, destroyed, construct, copy,
  move, assign, move_assign, destroy, placed, step, run, start,
}
use iggy_cpp_client.Ssl.Program.Slots.{Owns, Owns-update, Owns-mono, Owns-hand_over}

pub record Inv (p : Program) : Type 0 where
  pub good : IsGood p.world
  pub owns : Owns p.world.history p.slots

module _ (lib : WolfSsl) (law : IsFresh lib) where
  -- An object is placed in a variable that held none.
  placed-Inv :
      (i : ℕ) (p : Program) (r : Result SslContext × World)
      → Inv p
      → ctx_of (p.slots i) ≡ none
      → Builds p.world r
      → Inv (placed i p.slots r)
  placed-Inv i p (err e, w) v empty (good, kept) = record {
    good = good;
    owns = Owns-mono p.world.history w.history p.slots v.owns kept.live kept.ready;
  }
  placed-Inv i p (ok o, w) v empty (good, kept, ready, new) = record {
    good = good;
    owns =
        Owns-update p.world.history w.history p.slots i (some o) v.owns
          (λ j c _ e. kept.live c (v.owns.live j c e)) (λ c e. (new c e).1)
          (λ j c _ e f. cc ((new c e).0, v.owns.live j c f)) (λ _ _. ready) kept.ready;
  }

  -- An object is replaced by copy assignment.
  assigned-Inv :
      (i : ℕ) (p : Program) (this : SslContext) (r : Result SslContext × World)
      → Inv p
      → p.slots i ≡ some this
      → Replaces lib law this p.world r
      → Inv (placed i p.slots r)
  assigned-Inv i p this (err e, w) v here h = absurd h
  assigned-Inv i p this (ok o, w) v here (good, ready, others, new) = record {
    good = good;
    owns =
        Owns-update p.world.history w.history p.slots i (some o) v.owns
          (λ j c ne e.
            others c (v.owns.live j c e) (λ f. ne (v.owns.once i j c (ap ctx_of here ∙ f) e)))
          (λ c e. (new c e).0)
          (λ j c ne e f. elim (new c e).1 [
            | inl dead ↦ cc (dead, v.owns.live j c f)
            | inr held ↦ ne (v.owns.once i j c (ap ctx_of here ∙ held) f)
          ])
          (λ _ _. ready) (λ _. ready);
  }

  module _ (p : Program) (v : Inv p) where
    constructed-Inv :
        (i at env : ℕ) (o : SslOptions) (x : Option SslContext)
        → p.slots i ≡ x
        → Inv (constructed lib i at env o x p)
    constructed-Inv i at env o none e =
        placed-Inv i p _ v (ap ctx_of e) (new_context-effect lib law at env o p.world v.good)
    constructed-Inv i at env o (some _) e = v

    copied-Inv :
        (i j : ℕ) (x y : Option SslContext)
        → p.slots i ≡ x
        → p.slots j ≡ y
        → Inv (copied lib i x y p)
    copied-Inv i j none none e f = v
    copied-Inv i j none (some o) e f =
        placed-Inv i p _ v (ap ctx_of e)
          (copy_context-effect lib law o p.world v.good (v.owns.ready j o f))
    copied-Inv i j (some _) y e f = v

    moved-Inv :
        (i j : ℕ) (x y : Option SslContext)
        → p.slots i ≡ x
        → p.slots j ≡ y
        → Inv (moved lib i j x y p)
    unfolding move_context
    moved-Inv i j none none e f = v
    moved-Inv i j none (some o) e f = record {
      good = v.good;
      owns =
          Owns-hand_over p.world.history p.world.history p.slots i j o _ v.owns
            (λ same. cc (subst (λ k. p.slots k ≡ some o) (sym same) f, e)) (ap ctx_of f) refl
            (v.owns.ready j o f) (λ r. r) (λ l c _ g. v.owns.live l c g);
    }
    moved-Inv i j (some _) y e f = v

    copy_assigned-Inv :
        (i j : ℕ) (x y : Option SslContext)
        → p.slots i ≡ x
        → p.slots j ≡ y
        → Inv (assigned lib i x y p)
    copy_assigned-Inv i j none y e f = v
    copy_assigned-Inv i j (some this) none e f = v
    copy_assigned-Inv i j (some this) (some o) e f = assigned-Inv i p this _ v e (
        assign_context-effect lib law this o p.world v.good (v.owns.ready i this e)
          (λ c h. v.owns.live i c (ap ctx_of e ∙ h)))

    pub freed_by :
        (i : ℕ) (this : SslContext)
        → p.slots i ≡ some this
        → Frees lib law this.ctx p.world (free_context this p.world)
    freed_by i this e =
        free_context-effect lib law this p.world v.good (λ c h. v.owns.live i c (ap ctx_of e ∙ h))

    -- What other variables hold stays live when one object is freed.
    spared :
        (i : ℕ) (this : SslContext)
        → p.slots i ≡ some this
        → (l : ℕ) (c : Handle) → i ≢ l
        → ctx_of (p.slots l) ≡ some c
        → is_live c (free_context this p.world).history ≡ true
    spared i this e l c ne g =
        (freed_by i this e).others c (v.owns.live l c g)
          (λ h. ne (v.owns.once i l c (ap ctx_of e ∙ h) g))

    move_assigned-Inv :
        (i j : ℕ) (x y : Option SslContext)
        → i ≢ j
        → p.slots i ≡ x
        → p.slots j ≡ y
        → Inv (move_assigned lib i j x y p)
    unfolding move_assign_context
    move_assigned-Inv i j none y ne e f = v
    move_assigned-Inv i j (some this) none ne e f = v
    move_assigned-Inv i j (some this) (some o) ne e f =
        let freeing = freed_by i this e in
        record {
          good = freeing.good;
          owns =
              Owns-hand_over p.world.history (free_context this p.world).history p.slots i j _ _
                v.owns ne (ap ctx_of f) refl (v.owns.ready j o f) freeing.ready (spared i this e);
        }

    destroyed-Inv : (i : ℕ) (x : Option SslContext) → p.slots i ≡ x → Inv (destroyed lib i x p)
    destroyed-Inv i none e = v
    destroyed-Inv i (some this) e =
        let freeing = freed_by i this e in
        record {
          good = freeing.good;
          owns =
              Owns-update p.world.history (free_context this p.world).history p.slots i none v.owns
                (spared i this e) (λ c h. absurd (cc)) (λ l c _ h g. cc) (λ o h. absurd (cc))
                freeing.ready;
        }

  -- Every operation keeps the history safe and the handles owned.
  pub step-Inv : (op : Op) (p : Program) → Inv p → Inv (step lib op p)
  unfolding step
  step-Inv (construct i at env o) p v = constructed-Inv p v i at env o (p.slots i) refl
  step-Inv (copy i j) p v = copied-Inv p v i j (p.slots i) (p.slots j) refl refl
  step-Inv (move i j) p v = moved-Inv p v i j (p.slots i) (p.slots j) refl refl
  step-Inv (assign i j) p v = elim (Bool-cases (i == j)) [
    | inl self ↦ rw self v
    | inr other ↦ rw other (copy_assigned-Inv p v i j (p.slots i) (p.slots j) refl refl)
  ]
  step-Inv (move_assign i j) p v = elim (Bool-cases (i == j)) [
    | inl self ↦ rw self v
    | inr other ↦
        rw other (move_assigned-Inv p v i j (p.slots i) (p.slots j) (λ e. ground arith) refl refl)
  ]
  step-Inv (destroy i) p v = destroyed-Inv p v i (p.slots i) refl

  run-Inv : (ops : List Op) (p : Program) → Inv p → Inv (run lib ops p)
  unfolding run
  run-Inv [] p v = v
  run-Inv (op ∷ ops) p v = run-Inv ops (step lib op p) (step-Inv op p v)

  pub start-Inv : Inv start
  unfolding initialized
  start-Inv = record {
    good = record { safe = tt; known = refl };
    owns = record {
      live = λ i c e. absurd (cc);
      once = λ i j c e f. absurd (cc);
      ready = λ i o e. absurd (cc);
    };
  }

  -- Where WolfSSL never hands out a handle that is in use, the calls made of it by any sequence of
  -- operations are safe: it is initialised at most once and before any context is created, no
  -- context is freed twice, and none is used after it was freed.
  pub run-IsSafe : (ops : List Op) → IsSafe (run lib ops start).world.history
  run-IsSafe ops = (run-Inv ops start start-Inv).good.safe

  -- Where WolfSSL never hands out a handle that is in use, after any sequence of operations the
  -- context that a variable holds is live, no two variables hold the same one, and there are
  -- objects only if WolfSSL is initialised.
  pub run-Owns : (ops : List Op) → Owns (run lib ops start).world.history (run lib ops start).slots
  run-Owns ops = (run-Inv ops start start-Inv).owns

-- ===== src/Ssl/Program/Orphans.antt =====
-- A context that no `SSLContext` object (sdk/net/crypto/ssl.cc) holds is out of reach of every
-- later operation.
use iggy_cpp_client.Prelude.{
  ℕ, ◌≡◌, refl, ◌≢◌, ◌∙◌, sym, ap, true, Option, none, some, List, [], ◌∷◌, ◌==◌, Bool-cases, inl,
  inr,
}
use iggy_cpp_client.Prelude.Errors.{Result, ok, err}
use iggy_cpp_client.Ssl.Options.{SslOptions}
use iggy_cpp_client.Ssl.Wolf.{Handle, WolfSsl, IsFresh, is_live}
use iggy_cpp_client.Ssl.Context.{World, SslContext, move_context, move_assign_context, free_context}
use iggy_cpp_client.Ssl.Context.Live.{ctx_of}
use iggy_cpp_client.Ssl.Context.Effects.{Builds, new_context-effect}
use iggy_cpp_client.Ssl.Context.Replace.{Replaces, copy_context-effect, assign_context-effect}
use iggy_cpp_client.Ssl.Program.{
  Slots, update, Program, Op, constructed, copied, moved, assigned, move_assigned, destroyed,
  construct, copy, move, assign, move_assign, destroy, placed, step, run,
}
use iggy_cpp_client.Ssl.Program.Slots.{update-cases}
use iggy_cpp_client.Ssl.Program.Ownership.{Inv, freed_by, step-Inv}

-- No variable holds the handle.
abbrev pub IsUnheld : Handle → Slots → Type 0
IsUnheld c slots = (j : ℕ) → ctx_of (slots j) ≢ some c

-- The handle is live, and no variable holds it.
abbrev pub IsOrphan : Handle → Program → Type 0
IsOrphan c p = (is_live c p.world.history ≡ true) × IsUnheld c p.slots

update-IsUnheld :
    (c : Handle) (slots : Slots) (i : ℕ) (x : Option SslContext)
    → IsUnheld c slots
    → ctx_of x ≢ some c
    → IsUnheld c (update slots i x)
update-IsUnheld c slots i x unheld other j h = elim (update-cases slots i x j) [
  | inl (_, u) ↦ other (ap ctx_of (sym u) ∙ h)
  | inr (_, u) ↦ unheld j (ap ctx_of (sym u) ∙ h)
]

module _ (lib : WolfSsl) (law : IsFresh lib) (c : Handle) where
  placed-IsOrphan :
      (i : ℕ) (p : Program) (r : Result SslContext × World)
      → IsOrphan c p
      → Builds p.world r
      → IsOrphan c (placed i p.slots r)
  placed-IsOrphan i p (err e, w) (live, unheld) (_, kept) = (kept.live c live, unheld)
  placed-IsOrphan i p (ok o, w) (live, unheld) (_, kept, _, new) =
      (kept.live c live, update-IsUnheld c p.slots i (some o) unheld (λ h. cc ((new c h).0, live)))

  replaced-IsOrphan :
      (i : ℕ) (p : Program) (this : SslContext) (r : Result SslContext × World)
      → IsOrphan c p
      → this.ctx ≢ some c
      → Replaces lib law this p.world r
      → IsOrphan c (placed i p.slots r)
  replaced-IsOrphan i p this (err e, w) orphan other h = absurd h
  replaced-IsOrphan i p this (ok o, w) (live, unheld) other (_, _, others, new) = (
    others c live other,
    update-IsUnheld c p.slots i (some o) unheld
        λ h. elim (new c h).1 [ inl dead ↦ cc (dead, live) | inr held ↦ other held ],
  )

  module _ (p : Program) (v : Inv p) (orphan : IsOrphan c p) where
    unlike : (i : ℕ) (this : SslContext) → p.slots i ≡ some this → this.ctx ≢ some c
    unlike i this e h = orphan.1 i (ap ctx_of e ∙ h)

    spares :
        (i : ℕ) (this : SslContext)
        → p.slots i ≡ some this
        → is_live c (free_context this p.world).history ≡ true
    spares i this e = (freed_by lib law p v i this e).others c orphan.0 (unlike i this e)

    constructed-IsOrphan :
        (i at env : ℕ) (o : SslOptions) (x : Option SslContext)
        → IsOrphan c (constructed lib i at env o x p)
    constructed-IsOrphan i at env o (some _) = orphan
    constructed-IsOrphan i at env o none =
        placed-IsOrphan i p _ orphan (new_context-effect lib law at env o p.world v.good)

    copied-IsOrphan :
        (i j : ℕ) (x y : Option SslContext) → p.slots j ≡ y → IsOrphan c (copied lib i x y p)
    copied-IsOrphan i j (some _) y f = orphan
    copied-IsOrphan i j none none f = orphan
    copied-IsOrphan i j none (some o) f =
        placed-IsOrphan i p _ orphan
          (copy_context-effect lib law o p.world v.good (v.owns.ready j o f))

    moved-IsOrphan :
        (i j : ℕ) (x y : Option SslContext) → p.slots j ≡ y → IsOrphan c (moved lib i j x y p)
    unfolding move_context
    moved-IsOrphan i j (some _) y f = orphan
    moved-IsOrphan i j none none f = orphan
    moved-IsOrphan i j none (some o) f = (
      orphan.0,
      update-IsUnheld c _ i _ (update-IsUnheld c p.slots j _ orphan.1 (λ h. cc)) (unlike j o f),
    )

    assigned-IsOrphan :
        (i : ℕ) (x y : Option SslContext) → p.slots i ≡ x → IsOrphan c (assigned lib i x y p)
    assigned-IsOrphan i none y e = orphan
    assigned-IsOrphan i (some this) none e = orphan
    assigned-IsOrphan i (some this) (some o) e =
        replaced-IsOrphan i p this _ orphan (unlike i this e) (
          assign_context-effect lib law this o p.world v.good (v.owns.ready i this e)
            (λ d h. v.owns.live i d (ap ctx_of e ∙ h)))

    move_assigned-IsOrphan :
        (i j : ℕ) (x y : Option SslContext)
        → p.slots i ≡ x
        → p.slots j ≡ y
        → IsOrphan c (move_assigned lib i j x y p)
    unfolding move_assign_context
    move_assigned-IsOrphan i j none y e f = orphan
    move_assigned-IsOrphan i j (some this) none e f = orphan
    move_assigned-IsOrphan i j (some this) (some o) e f = (
      spares i this e,
      update-IsUnheld c _ i _ (update-IsUnheld c p.slots j _ orphan.1 (λ h. cc)) (unlike j o f),
    )

    destroyed-IsOrphan :
        (i : ℕ) (x : Option SslContext) → p.slots i ≡ x → IsOrphan c (destroyed lib i x p)
    destroyed-IsOrphan i none e = orphan
    destroyed-IsOrphan i (some this) e =
        (spares i this e, update-IsUnheld c p.slots i none orphan.1 (λ h. cc))

  step-IsOrphan : (op : Op) (p : Program) → Inv p → IsOrphan c p → IsOrphan c (step lib op p)
  unfolding step
  step-IsOrphan (construct i at env o) p v h = constructed-IsOrphan p v h i at env o (p.slots i)
  step-IsOrphan (copy i j) p v h = copied-IsOrphan p v h i j (p.slots i) (p.slots j) refl
  step-IsOrphan (move i j) p v h = moved-IsOrphan p v h i j (p.slots i) (p.slots j) refl
  step-IsOrphan (assign i j) p v h = elim (Bool-cases (i == j)) [
    | inl self ↦ rw self h
    | inr other ↦ rw other (assigned-IsOrphan p v h i (p.slots i) (p.slots j) refl)
  ]
  step-IsOrphan (move_assign i j) p v h = elim (Bool-cases (i == j)) [
    | inl self ↦ rw self h
    | inr other ↦ rw other (move_assigned-IsOrphan p v h i j (p.slots i) (p.slots j) refl refl)
  ]
  step-IsOrphan (destroy i) p v h = destroyed-IsOrphan p v h i (p.slots i) refl

  -- A handle that is live and that no variable holds stays so.
  pub run-IsOrphan :
      (ops : List Op) (p : Program) → Inv p → IsOrphan c p → IsOrphan c (run lib ops p)
  unfolding run
  run-IsOrphan [] p v h = h
  run-IsOrphan (op ∷ ops) p v h =
      run-IsOrphan ops (step lib op p) (step-Inv lib law op p v) (step-IsOrphan op p v h)

-- ===== src/Crypto/Environment/Sharing.antt =====
-- What the setters of `PKIEnvironment` in sdk/net/crypto/crypto.h do to the objects that
-- environments share: programs of any number of calls, on any environments.
use iggy_cpp_client.Prelude.{
  ℕ, ◌≡◌, refl, ◌∙◌, ap, List, [], ◌∷◌, ◌==◌, ==_iff, if◌then◌else◌, Bool-cases, inl, inr,
}
use iggy_cpp_client.Prelude.Bytes.{Bytes}
use iggy_cpp_client.Crypto.Disk.{Disk}
use iggy_cpp_client.Crypto.Environment.{
  PkiEnvironment, Heap, write, certificate_from, private_key_from, get_certificate_authority,
  get_certificate_store, get_key_store, set_certificate_authority, set_certificate_store,
  set_key_store,
}

write_self : {A : Type 0} (f : ℕ → A) (p q : ℕ) → write f p (f p) q ≡ f q
write_self f p q = elim (Bool-cases (p == q)) [
  | inl same ↦ rw same (ap f ((==_iff p q).0 same))
  | inr apart ↦ rw apart
]

-- A call of a setter: the environment, and the address of the object that it is handed.
pub data Setter : Type 0 where
  authority certificates keys : PkiEnvironment → ℕ → Setter

module _ (Url : Type 0) where
  unfoldable pub set_one : Setter → Heap Url → Heap Url
  set_one (authority env source) heap = set_certificate_authority Url env source heap
  set_one (certificates env source) heap = set_certificate_store Url env source heap
  set_one (keys env source) heap = set_key_store Url env source heap

  unfoldable pub set_all : List Setter → Heap Url → Heap Url
  set_all [] heap = heap
  set_all (s ∷ ss) heap = set_all ss (set_one s heap)

  set_one-cert_stores :
      (s : Setter) (heap : Heap Url) (p : ℕ) → (set_one s heap).cert_stores p ≡ heap.cert_stores p
  unfolding set_one set_certificate_authority set_certificate_store set_key_store
  set_one-cert_stores (authority env source) heap p = refl
  set_one-cert_stores (certificates env source) heap p =
      write_self heap.cert_stores env.cert_store p
  set_one-cert_stores (keys env source) heap p = refl

  set_one-key_stores :
      (s : Setter) (heap : Heap Url) (p : ℕ) → (set_one s heap).key_stores p ≡ heap.key_stores p
  unfolding set_one set_certificate_authority set_certificate_store set_key_store
  set_one-key_stores (authority env source) heap p = refl
  set_one-key_stores (certificates env source) heap p = refl
  set_one-key_stores (keys env source) heap p = write_self heap.key_stores env.key_store p

  set_all-stores :
      (ss : List Setter) (heap : Heap Url) (p : ℕ)
      → ((set_all ss heap).cert_stores p ≡ heap.cert_stores p)
        × ((set_all ss heap).key_stores p ≡ heap.key_stores p)
  unfolding set_all
  set_all-stores [] heap p = (refl, refl)
  set_all-stores (s ∷ ss) heap p =
      let (certs, ks) = set_all-stores ss (set_one s heap) p in
      (certs ∙ set_one-cert_stores s heap p, ks ∙ set_one-key_stores s heap p)

  -- No sequence of calls of the setters changes anything that any environment loads: the stores
  -- that it was built with stay in use.
  pub set_stores_ignored :
      (ss : List Setter) (heap : Heap Url) (env : PkiEnvironment) (disk : Disk) (path : Bytes)
      → (certificate_from disk (get_certificate_store Url env (set_all ss heap)) path
          ≡ certificate_from disk (get_certificate_store Url env heap) path)
        × (private_key_from disk (get_key_store Url env (set_all ss heap)) path
            ≡ private_key_from disk (get_key_store Url env heap) path)
  unfolding get_certificate_store get_key_store
  set_stores_ignored ss heap env disk path = (
    ap (λ s. certificate_from disk s path) (set_all-stores ss heap env.cert_store).0,
    ap (λ s. private_key_from disk s path) (set_all-stores ss heap env.key_store).1,
  )

-- Where the content of the object at an address was before a call, and before a sequence of them.
abbrev pub came_from : Setter → ℕ → ℕ
came_from (authority env source) p = if env.cert_auth == p then source else p
came_from (certificates env source) p = p
came_from (keys env source) p = p

unfoldable pub origin : List Setter → ℕ → ℕ
origin [] p = p
origin (s ∷ ss) p = came_from s (origin ss p)

module _ (Url : Type 0) where
  set_one-authorities :
      (s : Setter) (heap : Heap Url) (p : ℕ)
      → (set_one Url s heap).authorities p ≡ heap.authorities (came_from s p)
  unfolding set_one set_certificate_authority set_certificate_store set_key_store
  set_one-authorities (authority env source) heap p = elim (Bool-cases (env.cert_auth == p)) [
    | inl same ↦ rw same
    | inr apart ↦ rw apart
  ]
  set_one-authorities (certificates env source) heap p = refl
  set_one-authorities (keys env source) heap p = refl

  set_all-authorities :
      (ss : List Setter) (heap : Heap Url) (p : ℕ)
      → (set_all Url ss heap).authorities p ≡ heap.authorities (origin ss p)
  unfolding set_all origin
  set_all-authorities [] heap p = refl
  set_all-authorities (s ∷ ss) heap p =
      set_all-authorities ss (set_one Url s heap) p ∙ set_one-authorities s heap (origin ss p)

  -- After any sequence of calls of the setters the authority of an environment is that which stood,
  -- before the calls, at the address that is reached by going back through them: a call of
  -- `setCertificateAuthority` on any environment that refers to the same object counts, so
  -- environments that share an object share what is set.
  pub authority_origin :
      (ss : List Setter) (heap : Heap Url) (env : PkiEnvironment)
      → get_certificate_authority Url env (set_all Url ss heap)
        ≡ heap.authorities (origin ss env.cert_auth)
  unfolding get_certificate_authority
  authority_origin ss heap env = set_all-authorities ss heap env.cert_auth

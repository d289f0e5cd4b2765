-- ===== src/Ssl/Program/Slots.antt =====
-- Which variable owns which handle.
use iggy_cpp_client.Prelude.{
  ℕ, ◌≡◌, ◌≢◌, ◌∙◌, ◌⊎◌, sym, ap, true, Option, none, some, ◌==◌, ==_iff, arith, Bool-cases, inl,
  inr,
}
use iggy_cpp_client.Ssl.Wolf.{Handle, History, is_live, initialized}
use iggy_cpp_client.Ssl.Context.{SslContext}
use iggy_cpp_client.Ssl.Context.Live.{ctx_of}
use iggy_cpp_client.Ssl.Program.{Slots, update}

-- Every handle that a variable holds is live and held by no other variable, and there are objects
-- only once the library is initialised.
pub record Owns (h : History) (slots : Slots) : Type 0 where
  pub live : (i : ℕ) (c : Handle) → ctx_of (slots i) ≡ some c → is_live c h ≡ true
  pub once : (i j : ℕ) (c : Handle) → ctx_of (slots i) ≡ some c → ctx_of (slots j) ≡ some c → i ≡ j
  pub ready : (i : ℕ) (o : SslContext) → slots i ≡ some o → initialized h ≡ true

pub update-cases :
    (slots : Slots) (i : ℕ) (x : Option SslContext) (j : ℕ)
    → ((i ≡ j) × (update slots i x j ≡ x)) ⊎ ((i ≢ j) × (update slots i x j ≡ slots j))
update-cases slots i x j = elim (Bool-cases (i == j)) [
  | inl same ↦ inl ((==_iff i j).0 same, rw same)
  | inr apart ↦ inr (λ e. ground arith, rw apart)
]

-- One variable is given something new.
pub Owns-update :
    (h k : History) (slots : Slots) (i : ℕ) (x : Option SslContext)
    → Owns h slots
    → ((j : ℕ) (c : Handle) → i ≢ j → ctx_of (slots j) ≡ some c → is_live c k ≡ true)
    → ((c : Handle) → ctx_of x ≡ some c → is_live c k ≡ true)
    → ((j : ℕ) (c : Handle) → i ≢ j → ctx_of x ≡ some c → ctx_of (slots j) ≢ some c)
    → ((o : SslContext) → x ≡ some o → initialized k ≡ true)
    → (initialized h ≡ true → initialized k ≡ true)
    → Owns k (update slots i x)
Owns-update h k slots i x owns others mine apart ready kept = record {
  live = λ j c e. elim (update-cases slots i x j) [
    | inl (_, u) ↦ mine c (ap ctx_of (sym u) ∙ e)
    | inr (ne, u) ↦ others j c ne (ap ctx_of (sym u) ∙ e)
  ];
  once = λ j l c e f. elim (update-cases slots i x j) [
    | inl (same, u) ↦ elim (update-cases slots i x l) [
      | inl (same', _) ↦ sym same ∙ same'
      | inr (ne, v) ↦ absurd (apart l c ne (ap ctx_of (sym u) ∙ e) (ap ctx_of (sym v) ∙ f))
    ]
    | inr (ne, u) ↦ elim (update-cases slots i x l) [
      | inl (_, v) ↦ absurd (apart j c ne (ap ctx_of (sym v) ∙ f) (ap ctx_of (sym u) ∙ e))
      | inr (_, v) ↦ owns.once j l c (ap ctx_of (sym u) ∙ e) (ap ctx_of (sym v) ∙ f)
    ]
  ];
  ready = λ j o e. elim (update-cases slots i x j) [
    | inl (_, u) ↦ ready o (sym u ∙ e)
    | inr (_, u) ↦ kept (owns.ready j o (sym u ∙ e))
  ];
}

-- The library's state changes, and every handle stays live.
pub Owns-mono :
    (h k : History) (slots : Slots)
    → Owns h slots
    → ((c : Handle) → is_live c h ≡ true → is_live c k ≡ true)
    → (initialized h ≡ true → initialized k ≡ true)
    → Owns k slots
Owns-mono h k slots owns live kept = record {
  live = λ i c e. live c (owns.live i c e);
  once = owns.once;
  ready = λ i o e. kept (owns.ready i o e);
}

-- A variable hands what it holds over to another, whose own handle need not be live any more.
pub Owns-hand_over :
    (h k : History) (slots : Slots) (i j : ℕ) (x rest : SslContext)
    → Owns h slots
    → i ≢ j
    → ctx_of (slots j) ≡ x.ctx
    → rest.ctx ≡ none
    → initialized h ≡ true
    → (initialized h ≡ true → initialized k ≡ true)
    → ((l : ℕ) (c : Handle) → i ≢ l → ctx_of (slots l) ≡ some c → is_live c k ≡ true)
    → Owns k (update (update slots j (some rest)) i (some x))
Owns-hand_over h k slots i j x rest owns ne from gone ready kept others =
    Owns-update h k (update slots j (some rest)) i (some x) given
      (λ l c apart e. elim (update-cases slots j (some rest) l) [
        | inl (_, u) ↦ absurd (cc (gone, ap ctx_of (sym u) ∙ e))
        | inr (_, u) ↦ others l c apart (ap ctx_of (sym u) ∙ e)
      ])
      (λ c e. others j c ne (from ∙ e))
      (λ l c apart e f. elim (update-cases slots j (some rest) l) [
        | inl (_, u) ↦ cc (gone, ap ctx_of (sym u) ∙ f)
        | inr (off, u) ↦ off (owns.once j l c (from ∙ e) (ap ctx_of (sym u) ∙ f))
      ])
      (λ o _. kept ready) kept
  where
    given : Owns h (update slots j (some rest))
    given =
        Owns-update h h slots j (some rest) owns (λ l c _ e. owns.live l c e) (λ c e. absurd (cc))
          (λ l c _ e f. cc) (λ o _. ready) (λ r. r)

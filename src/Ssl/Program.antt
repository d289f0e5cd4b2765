-- ===== src/Ssl/Program.antt =====
-- A program over `SSLContext` objects of sdk/net/crypto/ssl.h: the variables that hold them, and
-- the declarations, assignments and ends of scope that run the members of ssl.cc.
pub mod Slots
pub mod Ownership
pub mod Leaks
pub mod Orphans
pub mod Flaws
use iggy_cpp_client.Prelude.{
  ℕ, ◌≡◌, Bool, true, false, Option, none, some, List, [], ◌∷◌, ◌==◌, if◌then◌else◌,
}
use iggy_cpp_client.Prelude.Errors.{Result, ok, err}
use iggy_cpp_client.Ssl.Options.{SslOptions}
use iggy_cpp_client.Ssl.Wolf.{Handle, WolfSsl}
use iggy_cpp_client.Ssl.Context.{
  World, SslContext, new_context, copy_context, move_context, assign_context, move_assign_context,
  free_context,
}

-- What each variable holds: an object, or nothing before its construction and after its end.
abbrev pub Slots : Type 0
Slots = ℕ → Option SslContext

abbrev pub update : Slots → ℕ → Option SslContext → Slots
update slots i x j = if i == j then x else slots j

pub record Program : Type 0 where
  pub world : World
  pub slots : Slots

-- The variable comes first, then the one that is copied or moved from.
pub data Op : Type 0 where
  construct : ℕ → ℕ → ℕ → SslOptions → Op
  copy move assign move_assign : ℕ → ℕ → Op
  destroy : ℕ → Op

-- The variable holds the object that was made; after an exception it is as it was.
abbrev pub placed : ℕ → Slots → Result SslContext × World → Program
placed i slots (ok o, w) = record { world = w; slots = update slots i (some o) }
placed i slots (err e, w) = record { world = w; slots = slots }

-- A construction in a variable that holds an object, or from one that holds none, is no C++
-- program; such a step does nothing. Assigning an object to itself is what `this != &other` tests.
module _ (lib : WolfSsl) where
  abbrev copied : ℕ → Option SslContext → Option SslContext → Program → Program
  copied i none (some o) p = placed i p.slots (copy_context lib o p.world)
  copied i _ _ p = p

  abbrev moved : ℕ → ℕ → Option SslContext → Option SslContext → Program → Program
  moved i j none (some o) p =
      let (new, rest) = move_context o in
      record p { slots = update (update p.slots j (some rest)) i (some new) }
  moved i j _ _ p = p

  abbrev assigned : ℕ → Option SslContext → Option SslContext → Program → Program
  assigned i (some this) (some other) p = placed i p.slots (assign_context lib this other p.world)
  assigned i _ _ p = p

  abbrev move_assigned : ℕ → ℕ → Option SslContext → Option SslContext → Program → Program
  move_assigned i j (some this) (some other) p =
      let (new, rest, w) = move_assign_context this other p.world in
      record { world = w; slots = update (update p.slots j (some rest)) i (some new) }
  move_assigned i j _ _ p = p

  abbrev constructed : ℕ → ℕ → ℕ → SslOptions → Option SslContext → Program → Program
  constructed i at env o none p = placed i p.slots (new_context lib at env o p.world)
  constructed i at env o (some _) p = p

  abbrev destroyed : ℕ → Option SslContext → Program → Program
  destroyed i none p = p
  destroyed i (some this) p = record {
    world = free_context this p.world;
    slots = update p.slots i none;
  }

  unfoldable pub step : Op → Program → Program
  step (construct i at env o) p = constructed i at env o (p.slots i) p
  step (copy i j) p = copied i (p.slots i) (p.slots j) p
  step (move i j) p = moved i j (p.slots i) (p.slots j) p
  step (assign i j) p = if i == j then p else assigned i (p.slots i) (p.slots j) p
  step (move_assign i j) p = if i == j then p else move_assigned i j (p.slots i) (p.slots j) p
  step (destroy i) p = destroyed i (p.slots i) p

  unfoldable pub run : List Op → Program → Program
  run [] p = p
  run (op ∷ ops) p = run ops (step op p)

-- Before `main`: the library untouched, the once-flag clear, no objects.
abbrev pub start : Program
start = record { world = record { history = []; init_done = false }; slots = λ i. none }

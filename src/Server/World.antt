-- ===== src/Server/World.antt =====
-- What the server holds of the operating system: its open listeners, the connections that it has
-- closed, and the messages that it has handed to `message.Send`.
use ae_ro_go.Base.{ℕ, suc, ◌≡◌, true, false, List, [], ◌∷◌, ◌==◌, if◌then◌else◌, arith}
use ae_ro_go.Base.Eq.{contains, ℕ_eq}
use ae_ro_go.Message.{Message}

pub record World : Type 0 where
  pub open_listeners : List ℕ
  pub next_listener : ℕ
  pub closed_conns : List ℕ
  pub sent : List (ℕ × Message)

-- `net.Listen` that succeeds: a new listener.
unfoldable pub listen : World → ℕ × World
listen w = (
  w.next_listener,
  record w {
    open_listeners = w.next_listener ∷ w.open_listeners;
    next_listener = suc w.next_listener;
  },
)

unfoldable pub remove : ℕ → List ℕ → List ℕ
remove l [] = []
remove l (x ∷ xs) = if x == l then remove l xs else x ∷ remove l xs

-- `listener.Close()`
unfoldable pub close_listener : ℕ → World → World
close_listener l w = record w { open_listeners = remove l w.open_listeners }

-- `conn.Close()`
unfoldable pub close_conn : ℕ → World → World
close_conn c w = record w { closed_conns = c ∷ w.closed_conns }

-- `message.Send` on a stream, where the server does not look at the result.
unfoldable pub send_on : ℕ → Message → World → World
send_on c m w = record w { sent = (c, m) ∷ w.sent }

abbrev pub IsOpen : ℕ → World → Type 0
IsOpen l w = contains w.open_listeners l ≡ true

abbrev pub IsClosed : ℕ → World → Type 0
IsClosed c w = contains w.closed_conns c ≡ true

pub contains-remove :
    (l k : ℕ) (xs : List ℕ) → contains (remove l xs) k ≡ (if l == k then false else contains xs k)
unfolding remove contains
contains-remove l k [] = ground arith
contains-remove l k (x ∷ xs) = ground (arith, contains-remove l k xs)

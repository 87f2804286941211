-- ===== src/Server/Proxy.antt =====
-- server/proxy.go: a port of the server that stands for a service behind a client.
use ae_ro_go.Base.{ℕ, Bytes, ◌∷◌, ◌++◌, [], none, some, ◌⊎◌, inl, inr}
use ae_ro_go.Server.World.{World, listen, close_listener}
use ae_ro_go.Server.Address.{split_host_port}

pub record Proxy : Type 0 where
  pub name : Bytes
  pub port : Bytes
  pub remote : Bytes
  pub listener : ℕ

-- `ActualPort`, by the address of the listener.
unfoldable pub actual_port : Bytes → Bytes → Bytes
actual_port addr port = elim (split_host_port addr) [ none ↦ port | some (_, p) ↦ p ]

-- What `net.Listen` gives: an error with its text, or a listener at an address.
pub data Answer : Type 0 where
  refused : Bytes → Answer
  listening : Bytes → Answer

-- `NewProxy`; `inl` is the error. `answer` is `net.Listen("tcp", …)` at that moment.
unfoldable pub new_proxy :
    Bytes → Bytes → Bytes → (Bytes → Answer) → World → Bytes ⊎ (Proxy × World)
unfolding listen
new_proxy name port remote answer w = elim (answer (b':' ∷ port)) [
  | refused why ↦ inl why
  | listening addr ↦
      let (l, w') = listen w in
      inr (record { name = name; port = actual_port addr port; remote = remote; listener = l }, w')
]

-- `Close`
unfoldable pub close_proxy : Proxy → World → World
close_proxy p w = close_listener p.listener w

-- `String`
unfoldable pub proxy_string : Proxy → Bytes
proxy_string p = b'<' ∷ p.name ++ (b':' ∷ p.port ++ b'>' ∷ [])

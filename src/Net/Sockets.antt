-- ===== src/Net/Sockets.antt =====
-- `__public__net_listen` and `__public__net_dial` of runtime/src/netio.c: what they do with descriptors. The addresses that
-- `getaddrinfo` finds come with the answers of the system to the calls for each of them.
pub mod Leaks
use picasso_lang.Base.{
  ℕ, ◌+◌, ◌-◌, Bool, true, false, ◌&&◌, ◌||◌, Option, none, some, List, [], ◌∷◌, ◌++◌, ◌==◌, ltb,
  if◌then◌else◌, length, take,
}
use picasso_lang.Base.Int.{ℤ, pos, negsuc, ltb_ℤ}
use picasso_lang.Text.Ops.{Str, read_bytes}

pub data SockOpt : Type 0 where
  so_reuseaddr : SockOpt
  so_reuseport : SockOpt
  so_rcvbuf : ℤ → SockOpt
  so_sndbuf : ℤ → SockOpt
  so_keepalive : SockOpt
  ipv6_v6only : SockOpt
  tcp_nodelay : SockOpt
  tcp_defer_accept : ℤ → SockOpt
  tcp_fastopen : ℤ → SockOpt

-- The calls on descriptors, in order.
pub data Call : Type 0 where
  opened : ℕ → Call
  closed : ℕ → Call
  option : ℕ → SockOpt → Call
  bound : ℕ → Call
  listening : ℕ → ℕ → Call

-- What `connect` says, and for one that is in progress whether the task could be registered with the poller, and
-- whether the socket has no error afterwards.
pub data Connect : Type 0 where
  at_once : Connect
  in_progress : Bool → Bool → Connect
  refused : Connect

-- `socket` gives a descriptor or -1; the others tell whether the calls of that name succeed.
pub record Address : Type 0 where
  pub socket : Option ℕ
  pub is_inet6 : Bool
  pub f_getfl : Bool
  pub f_setfl : Bool
  pub f_getfd : Bool
  pub f_setfd : Bool
  pub bind : Bool
  pub connect : Connect

-- The arguments of `__public__net_listen` that are flags (a number other than 0) or sizes.
pub record Options : Type 0 where
  pub close_on_exec : Bool
  pub reuse_addr : Bool
  pub reuse_port : Bool
  pub nodelay : Bool
  pub defer_accept : ℤ
  pub fastopen : ℤ
  pub keepalive : Bool
  pub rcvbuf : ℤ
  pub sndbuf : ℤ
  pub ipv6_only : Bool

-- `setsockopt` for those whose condition holds; the results are not looked at.
unfoldable pub set_options : ℕ → List (Bool × SockOpt) → List Call
set_options fd [] = []
set_options fd ((wanted, o) ∷ os) =
    let rest = set_options fd os in if wanted then option fd o ∷ rest else rest

abbrev pub before_bind : Options → Address → List (Bool × SockOpt)
before_bind o ai =
    (o.reuse_addr, so_reuseaddr)
    ∷ (o.reuse_port, so_reuseport)
    ∷ (ltb_ℤ (pos 0) o.rcvbuf, so_rcvbuf o.rcvbuf)
    ∷ (ltb_ℤ (pos 0) o.sndbuf, so_sndbuf o.sndbuf)
    ∷ (o.keepalive, so_keepalive)
    ∷ (ai.is_inet6 && o.ipv6_only, ipv6_v6only)
    ∷ []

abbrev pub after_bind : Options → List (Bool × SockOpt)
after_bind o =
    (o.nodelay, tcp_nodelay)
    ∷ (ltb_ℤ (pos 0) o.defer_accept, tcp_defer_accept o.defer_accept)
    ∷ (ltb_ℤ (pos 0) o.fastopen, tcp_fastopen o.fastopen)
    ∷ []

-- The body of the loop behind `socket`: the calls, and whether the socket is bound. What is not is closed.
unfoldable pub bind_socket : ℕ → Options → Address → Bool × List Call
unfolding set_options
bind_socket fd o ai =
    if ai.f_getfl && ai.f_setfl && (if o.close_on_exec then ai.f_getfd && ai.f_setfd else true)
    then (if ai.bind
        then (true, set_options fd (before_bind o ai) ++ (bound fd ∷ []))
        else (false, set_options fd (before_bind o ai) ++ (closed fd ∷ [])))
    else (false, closed fd ∷ [])

-- The loop over the addresses: the descriptor that was bound, and the calls.
unfoldable pub bind_loop : List Address → Options → Option ℕ × List Call
unfolding bind_socket
bind_loop [] o = (none, [])
bind_loop (ai ∷ more) o = elim ai.socket [
  | none ↦ bind_loop more o
  | some fd ↦
      let first = bind_socket fd o ai in
      let rest = bind_loop more o in
      if first.0 then (some fd, opened fd ∷ first.1) else (rest.0, (opened fd ∷ first.1) ++ rest.1)
]

-- The name that is looked up: 127 bytes at most of the address, or 0.0.0.0.
unfoldable pub host_of : Option Str → Option (List ℕ)
host_of none = some (48 ∷ 46 ∷ 48 ∷ 46 ∷ 48 ∷ 46 ∷ 48 ∷ [])
host_of (some addr) =
    if addr.size == 0
    then some (48 ∷ 46 ∷ 48 ∷ 46 ∷ 48 ∷ 46 ∷ 48 ∷ [])
    else read_bytes (if ltb addr.size 127 then addr.size else 127) addr.bytes

abbrev pub somaxconn : ℕ
somaxconn = 4096

abbrev pub backlog_of : ℤ → ℕ
backlog_of (negsuc _) = somaxconn
backlog_of (pos n) = if n == 0 then somaxconn else n

-- The rest of `__public__net_listen`, with a socket that is bound.
unfoldable pub start_listening : Bool → ℕ → ℤ → Options → List Call → Option ℕ × List Call
unfolding set_options
start_listening listens fd backlog o before =
    let calls = before ++ set_options fd (after_bind o) in
    if listens
    then (some fd, calls ++ (listening fd (backlog_of backlog) ∷ []))
    else (none, calls ++ (closed fd ∷ []))

-- `getaddrinfo` and whether `listen` succeeds are parameters. -1 is `none`; the outer `none` is a read behind the address.
module _ (getaddrinfo : List ℕ → ℕ → Option (List Address)) where
  unfoldable pub net_listen : Bool → Option Str → ℕ → ℤ → Options → Option (Option ℕ × List Call)
  unfolding start_listening
  net_listen listens addr port backlog o = elim (host_of addr) [
    | none ↦ none
    | some host ↦ elim (getaddrinfo host port) [
      | none ↦ some (none, [])
      | some addresses ↦
          let loop = bind_loop addresses o in
          elim (loop.0) [
            | none ↦ some (none, loop.1)
            | some fd ↦ some (start_listening listens fd backlog o loop.1)
          ]
    ]
  ]

-- Whether the connection of a socket is there in the end.
unfoldable pub connects : Connect → Bool
connects at_once = true
connects (in_progress registered no_error) = registered && no_error
connects refused = false

unfoldable pub dial_loop : List Address → Option ℕ × List Call
unfolding connects
dial_loop [] = (none, [])
dial_loop (ai ∷ more) = elim ai.socket [
  | none ↦ dial_loop more
  | some fd ↦
      let rest = dial_loop more in
      if ai.f_getfl && ai.f_setfl && ai.f_setfd && connects ai.connect
      then (some fd, opened fd ∷ [])
      else (rest.0, (opened fd ∷ closed fd ∷ []) ++ rest.1)
]

-- The address is passed on as it is.
unfoldable pub net_dial : (List ℕ → ℕ → Option (List Address)) → Str → ℕ → Option ℕ × List Call
net_dial getaddrinfo addr port = elim (getaddrinfo addr.bytes port) [
  | none ↦ (none, [])
  | some addresses ↦ dial_loop addresses
]

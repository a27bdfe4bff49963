-- ===== src/Network/Connector.antt =====
-- The two ways to an upstream address: `call` of `ValidatingConnector` in
-- crates/icebreaker-proxy/src/network/validating_connector.rs, up to the opening of the socket, and
-- `resolve_and_validate` of crates/icebreaker-proxy/src/tunnel/connect_handler.rs. The resolver is
-- the system's; of an I/O error the kind is kept.
pub mod Laws
use icebreaker.Common.{
  Text, codes, text_eq, ℕ, Option, none, some, List, [], ◌∷◌, ◌++◌, if◌then◌else◌,
}
use icebreaker.Errors.{Result, ok, err, http_error, internal_error, ◌>>=◌, ◌>>◌}
use icebreaker.Network.Address.{IpAddr, IpnetCrate, StdText}
use icebreaker.Network.IpFilter.{IpFilter, validate_ip, validate_hostname}

pub record SocketAddr : Type 0 where
  pub ip : IpAddr
  pub port : ℕ

-- What the blocking task that resolves `host:port` returns: the error of the task itself, that of
-- the resolver, or the addresses.
pub data Answer : Type 0 where
  task_failure failure : (message : Text) → Answer
  addresses : List SocketAddr → Answer

pub record Resolver : Type 0 where
  pub resolve : Text → ℕ → Answer

pub record Uri : Type 0 where
  pub scheme : Option Text
  pub host : Option Text
  pub port : Option ℕ

pub data ErrorKind : Type 0 where
  invalid_input permission_denied not_found other : ErrorKind

pub data IoResult (A : Type 0) : Type 0 where
  done : A → IoResult A
  io_error : ErrorKind → IoResult A

-- `map_err` to `PermissionDenied`
abbrev pub or_permission_denied : Result (Unit {0}) → IoResult (Unit {0})
or_permission_denied (ok u) = done u
or_permission_denied (err e) = io_error permission_denied

infixl 5 ◌>>-◌
abbrev pub ◌>>-◌ : {A B : Type 0} → IoResult A → IoResult B → IoResult B
done a >>- k = k
io_error e >>- k = io_error e

abbrev pub port_of : Option Text → Option ℕ → ℕ
port_of scheme (some p) = p
port_of (some s) none = if text_eq s (codes "https") then 443 else 80
port_of none none = 80

module _ ⦃n : IpnetCrate⦄ ⦃s : StdText⦄ where
  -- The loop over all resolved addresses.
  unfoldable pub validate_all : IpFilter → List SocketAddr → Result (Unit {0})
  unfolding validate_ip
  validate_all f [] = ok tt
  validate_all f (a ∷ as') = validate_ip f a.ip >> validate_all f as'

  -- `resolve_and_validate` from the resolver's answer on.
  unfoldable pub first_valid : IpFilter → Text → Answer → Result SocketAddr
  unfolding validate_all
  first_valid f host (task_failure message) =
      err (internal_error (codes "DNS resolution task failed: " ++ message))
  first_valid f host (failure message) =
      err (http_error (codes "DNS resolution failed: " ++ message))
  first_valid f host (addresses []) = err (http_error (codes "no addresses found for " ++ host))
  first_valid f host (addresses (a ∷ as')) = validate_all f (a ∷ as') >> ok a

  -- The part of `call` from the resolution on.
  unfoldable pub call_resolved : IpFilter → Answer → IoResult SocketAddr
  unfolding validate_all
  call_resolved f (task_failure message) = io_error other
  call_resolved f (failure message) = io_error other
  call_resolved f (addresses []) = io_error not_found
  call_resolved f (addresses (a ∷ as')) = or_permission_denied (validate_all f (a ∷ as')) >>- done a

  module _ ⦃d : Resolver⦄ where
    unfoldable pub resolve_and_validate : IpFilter → Text → ℕ → Result SocketAddr
    unfolding first_valid
    resolve_and_validate f host port = first_valid f host (d.resolve host port)

    -- The address that `call` connects to.
    unfoldable pub call : IpFilter → Uri → IoResult SocketAddr
    unfolding call_resolved validate_hostname
    call f uri = elim uri.host [
      | none ↦ io_error invalid_input
      | some host ↦
          or_permission_denied (validate_hostname f host)
          >>- call_resolved f (d.resolve host (port_of uri.scheme uri.port))
    ]

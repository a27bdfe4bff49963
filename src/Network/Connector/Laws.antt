-- ===== src/Network/Connector/Laws.antt =====
-- What an upstream address has passed before the proxy connects to it.
use icebreaker.Common.{Text, ℕ, ◌≡◌, ◌↔◌, refl, true, false, some, List, [], ◌∷◌, All, arith}
use icebreaker.Errors.{Result, ok, err, ◌>>◌}
use icebreaker.Network.Address.{IpAddr, IpnetCrate, StdText}
use icebreaker.Network.IpFilter.{
  IpFilter, is_allowed, validate_ip, is_hostname_blocked, validate_hostname,
}
use icebreaker.Network.Connector.{
  SocketAddr, Answer, task_failure, failure, addresses, Resolver, Uri, IoResult, done,
  or_permission_denied, ◌>>-◌, port_of, validate_all, first_valid, resolve_and_validate,
  call_resolved, call,
}

module _ ⦃n : IpnetCrate⦄ where
  -- Every address of the list is let through.
  abbrev pub AllAllowed : IpFilter → List SocketAddr → Type 0
  AllAllowed f as' = All (λ (a : SocketAddr). is_allowed f a.ip ≡ true) as'

module _ ⦃n : IpnetCrate⦄ ⦃s : StdText⦄ where
  validate_ip_iff :
      (f : IpFilter) (ip : IpAddr) → (validate_ip f ip ≡ ok tt) ↔ (is_allowed f ip ≡ true)
  unfolding validate_ip is_allowed
  validate_ip_iff f ip = ground arith

  validate_all_iff :
      (f : IpFilter) (as' : List SocketAddr) → (validate_all f as' ≡ ok tt) ↔ AllAllowed f as'
  unfolding validate_all
  validate_all_iff f [] = ground arith
  validate_all_iff f (a ∷ as') = ground (arith, validate_ip_iff f a.ip, validate_all_iff f as')

  ok_eq : (v : Result (Unit {0})) (a b : SocketAddr) → (v >> ok a ≡ ok b) ↔ ((v ≡ ok tt) × (a ≡ b))
  ok_eq (ok tt) a b = ground arith
  ok_eq (err e) a b = ground arith

  done_eq :
      (v : Result (Unit {0})) (k : IoResult SocketAddr) (b : SocketAddr)
      → (or_permission_denied v >>- k ≡ done b) ↔ ((v ≡ ok tt) × (k ≡ done b))
  done_eq (ok tt) k b = ground arith
  done_eq (err e) k b = ground arith

  validate_hostname_iff :
      (f : IpFilter) (h : Text)
      → (validate_hostname f h ≡ ok tt) ↔ (is_hostname_blocked f h ≡ false)
  unfolding validate_hostname
  validate_hostname_iff f h = ground arith

  -- The address is the first that the resolver gives, and all that it gives are let through.
  abbrev pub FirstOfAllowed : IpFilter → Answer → SocketAddr → Type 0
  FirstOfAllowed f answer a =
      (as' : List SocketAddr) × (answer ≡ addresses (a ∷ as')) × AllAllowed f (a ∷ as')

  call_resolved_iff :
      (f : IpFilter) (answer : Answer) (b : SocketAddr)
      → (call_resolved f answer ≡ done b) ↔ FirstOfAllowed f answer b
  unfolding call_resolved
  call_resolved_iff f (task_failure message) b = ground arith
  call_resolved_iff f (failure message) b = ground arith
  call_resolved_iff f (addresses []) b = ground arith
  call_resolved_iff f (addresses (a ∷ as')) b =
      let (fwd, back) = done_eq (validate_all f (a ∷ as')) (done a) b in
      let (all', valid) = validate_all_iff f (a ∷ as') in
      (
        λ e.
            let (v, w) = fwd e in
            let same : a ≡ b = ground arith in (as', rw same refl, rw same at (all' v)),
        λ (rest, e, h).
            let same : (a ≡ b) × (as' ≡ rest) = ground arith in
            back (valid (rw (same.0, same.1) h), rw same.0 refl),
      )

  first_valid_iff :
      (f : IpFilter) (host : Text) (answer : Answer) (b : SocketAddr)
      → (first_valid f host answer ≡ ok b) ↔ FirstOfAllowed f answer b
  unfolding first_valid
  first_valid_iff f host (task_failure message) b = ground arith
  first_valid_iff f host (failure message) b = ground arith
  first_valid_iff f host (addresses []) b = ground arith
  first_valid_iff f host (addresses (a ∷ as')) b =
      let (fwd, back) = ok_eq (validate_all f (a ∷ as')) a b in
      let (all', valid) = validate_all_iff f (a ∷ as') in
      (
        λ e. let (v, w) = fwd e in (as', rw w refl, rw w at (all' v)),
        λ (rest, e, h).
            let same : (a ≡ b) × (as' ≡ rest) = ground arith in
            back (valid (rw (same.0, same.1) h), rw same.0 refl),
      )

  module _ ⦃d : Resolver⦄ where
    -- `resolve_and_validate` returns an address exactly if it is the first of those that the
    -- resolver gives for the host and port, and every one of them is let through by the filter.
    -- Whether the host is one of the filter's blocked hostnames plays no part.
    pub resolve_and_validate_iff :
        (f : IpFilter) (host : Text) (port : ℕ) (b : SocketAddr)
        → (resolve_and_validate f host port ≡ ok b) ↔ FirstOfAllowed f (d.resolve host port) b
    unfolding resolve_and_validate
    resolve_and_validate_iff f host port b = first_valid_iff f host (d.resolve host port) b

    -- The connector of outgoing requests goes on to open a socket exactly for an address that is
    -- the first of those that the resolver gives for the URI's host and port, if every one of them
    -- is let through by the filter and the host is not one of its blocked hostnames.
    pub call_iff :
        (f : IpFilter) (uri : Uri) (host : Text) (b : SocketAddr)
        → uri.host ≡ some host
        → (call f uri ≡ done b) ↔ (
            (is_hostname_blocked f host ≡ false)
            × FirstOfAllowed f (d.resolve host (port_of uri.scheme uri.port)) b)
    unfolding call
    call_iff f uri host b e =
        let answer = d.resolve host (port_of uri.scheme uri.port) in
        let (fwd, back) = done_eq (validate_hostname f host) (call_resolved f answer) b in
        let (unblocked, passes) = validate_hostname_iff f host in
        let (res, resolved) = call_resolved_iff f answer b in
        rw e
          (λ c. let (v, w) = fwd c in (unblocked v, res w), λ (h, r). back (passes h, resolved r))

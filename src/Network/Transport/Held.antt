-- ===== src/Network/Transport/Held.antt =====
-- Each descriptor is open as often as the transport holds it, step by step.
use edge_orchestrator_ai.Prelude.{
  ℕ, suc, ◌+◌, ◌≡◌, refl, sym, ◌∙◌, Bool, true, false, List, [], ◌∷◌, Option, none, some, nat_key,
  remove_one-first, count-remove_one, count, ite, if_pos, if_neg, ℕ_discrete, if◌then◌else◌, elem,
  subst, elem-count, elem_self, ◌≤◌, arith,
}
use edge_orchestrator_ai.Network.Transport.Sockets.{
  TcpTransport, close_client, close_server, disconnect, disconnect_from, serve_from, stop_from,
  Accepting, not_ready, not_accepted, accepted, after_accept, accept_from, accept_connection,
  close_accepted, finish_connection, finish_all,
}

-- How often a descriptor is held.
abbrev pub held_by : ℕ → Option ℕ → ℕ
held_by x none = 0
held_by x (some fd) = ite (ℕ_discrete x fd) 1 0

abbrev pub held : ℕ → TcpTransport → ℕ
held x t = held_by x t.client_fd + held_by x t.server_fd + count x t.accepted_fds

-- Each descriptor is open as often as the transport holds it.
abbrev pub NoLeak : TcpTransport → Type 0
NoLeak t = (x : ℕ) → count x t.open_fds ≡ held x t

pub close_client-NoLeak :
    (fd : ℕ) (t : TcpTransport) → t.client_fd ≡ some fd → NoLeak t → NoLeak (close_client fd t)
close_client-NoLeak fd t e h x =
    let now : held x t ≡ held_by x (some fd) + held_by x t.server_fd + count x t.accepted_fds =
      rw e refl in
    omega (arith, h x, count-remove_one x fd t.open_fds)

pub close_server-NoLeak :
    (fd : ℕ) (t : TcpTransport) → t.server_fd ≡ some fd → NoLeak t → NoLeak (close_server fd t)
close_server-NoLeak fd t e h x =
    let now : held x t ≡ held_by x t.client_fd + held_by x (some fd) + count x t.accepted_fds =
      rw e refl in
    omega (arith, h x, count-remove_one x fd t.open_fds)

pub disconnect-NoLeak : (t : TcpTransport) → NoLeak t → NoLeak (disconnect t)
unfolding disconnect
disconnect-NoLeak t h = from t.client_fd refl
  where
    from : (o : Option ℕ) → t.client_fd ≡ o → NoLeak (disconnect_from o t)
    from none e = h
    from (some fd) e = close_client-NoLeak fd t e h

pub stop_from-NoLeak :
    (t : TcpTransport) (o : Option ℕ) → t.server_fd ≡ o → NoLeak t → NoLeak (stop_from o t)
stop_from-NoLeak t none e h = h
stop_from-NoLeak t (some fd) e h = close_server-NoLeak fd t e h

pub serve_from-NoLeak : (t : TcpTransport) (o : Option ℕ) → NoLeak t → NoLeak (serve_from o t)
serve_from-NoLeak t none h = h
serve_from-NoLeak t (some fd) h = h

accept-NoLeak : (a : Accepting) (t : TcpTransport) → NoLeak t → NoLeak (after_accept a t)
unfolding count
accept-NoLeak not_ready t h = h
accept-NoLeak not_accepted t h = h
accept-NoLeak (accepted fd) t h = λ x. ground (arith, h x)

accept_from-NoLeak :
    (o : Option ℕ) (a : Accepting) (t : TcpTransport) → NoLeak t → NoLeak (accept_from o a t)
accept_from-NoLeak none a t h = h
accept_from-NoLeak (some fd) a t h = accept-NoLeak a t h

pub accept_connection-NoLeak :
    (a : Accepting) (t : TcpTransport) → NoLeak t → NoLeak (accept_connection a t)
unfolding accept_connection
accept_connection-NoLeak a t h = from t.serving
  where
    from : (b : Bool) → NoLeak (if b then accept_from t.server_fd a t else t)
    from true = accept_from-NoLeak t.server_fd a t h
    from false = h

close_accepted-NoLeak :
    (fd : ℕ) (t : TcpTransport)
    → elem fd t.accepted_fds ≡ true
    → NoLeak t
    → NoLeak (close_accepted fd t)
close_accepted-NoLeak fd t e h x = elim (ℕ_discrete x fd) [
  | yes same ↦
      let present : 1 ≤ count x t.accepted_fds =
        subst (λ y. 1 ≤ count y t.accepted_fds) (sym same) (elem-count fd t.accepted_fds e) in
      omega (
        arith,
        h x,
        present,
        count-remove_one x fd t.open_fds,
        count-remove_one x fd t.accepted_fds,
        if_pos {C = ℕ} (ℕ_discrete x fd) same 1 0,
      )
  | no other ↦ omega (
    arith,
    h x,
    count-remove_one x fd t.open_fds,
    count-remove_one x fd t.accepted_fds,
    if_neg {C = ℕ} (ℕ_discrete x fd) other 1 0,
  )
]

pub finish_connection-NoLeak :
    (fd : ℕ) (t : TcpTransport) → NoLeak t → NoLeak (finish_connection fd t)
unfolding finish_connection
finish_connection-NoLeak fd t h = from (elem fd t.accepted_fds) refl
  where
    from : (b : Bool) → elem fd t.accepted_fds ≡ b → NoLeak (if b then close_accepted fd t else t)
    from true e = close_accepted-NoLeak fd t e h
    from false e = h

none_open : (fds : List ℕ) → ((x : ℕ) → count x fds ≡ 0) → fds ≡ []
unfolding count
none_open [] h = refl
none_open (fd ∷ fds) h =
    let first = if_pos {C = ℕ} (ℕ_discrete fd fd) refl (suc (count fd fds)) (count fd fds) in
    absurd (omega (arith, h fd, first))

finish_connection_lem :
    (fd : ℕ) (fds : List ℕ) (t : TcpTransport)
    → t.accepted_fds ≡ fd ∷ fds
    → ((finish_connection fd t).accepted_fds ≡ fds)
      × ((finish_connection fd t).client_fd ≡ t.client_fd)
      × ((finish_connection fd t).server_fd ≡ t.server_fd)
unfolding finish_connection
finish_connection_lem fd fds t e = from (elem fd t.accepted_fds) (rw e (elem_self fd fds))
  where
    from :
        (b : Bool)
        → b ≡ true
        → ((if b then close_accepted fd t else t).accepted_fds ≡ fds)
          × ((if b then close_accepted fd t else t).client_fd ≡ t.client_fd)
          × ((if b then close_accepted fd t else t).server_fd ≡ t.server_fd)
    from true yes_in = (rw e (remove_one-first fd fds), refl, refl)
    from false no_in = absurd cc

pub finish_all-closes :
    (fds : List ℕ) (t : TcpTransport)
    → t.accepted_fds ≡ fds
    → t.client_fd ≡ none
    → t.server_fd ≡ none
    → NoLeak t
    → (finish_all fds t).open_fds ≡ []
unfolding count
finish_all-closes [] t e client server h =
    none_open t.open_fds (λ x. h x ∙ rw (e, client, server) (omega arith))
finish_all-closes (fd ∷ fds) t e client server h =
    let (rest, same, alike) = finish_connection_lem fd fds t e in
    finish_all-closes fds (finish_connection fd t) rest (same ∙ client) (alike ∙ server)
      (finish_connection-NoLeak fd t h)

-- ===== src/Rpc/Workers/Accepts.antt =====
-- What `accept_callback2` hands over.
use lepd.Base.{ℕ, zero, suc, ◌≡◌, refl, List, ◌∷◌, ◌++◌, String, replicate}
use lepd.Base.Int.{ℤ, negsuc}
use lepd.Rpc.Workers.{
  Accept, accepted, again, failed, Threads, accept_conn, accept_callback2, dispath_conn,
}

accept_conn_again :
    (n : ℕ) (rs : List Accept) (addr : String) (port server : ℕ)
    → accept_conn (replicate n again ++ rs) addr port server ≡ accept_conn rs addr port server
unfolding accept_conn
accept_conn_again zero rs addr port server = refl
accept_conn_again (suc n) rs addr port server = accept_conn_again n rs addr port server

-- After any number of passing errors, `accept_callback2` hands over exactly one connection: the
-- accepted one with its address, or, after an error that does not pass, one of descriptor -1 with
-- the address that `sin` held before.
pub accept_callback2_one :
    (n : ℕ) (rs : List Accept) (addr : String) (port server : ℕ) (s : Threads)
    → ((fd : ℕ) (peer : String) (peer_port : ℕ)
        → accept_callback2 (replicate n again ++ accepted fd peer peer_port ∷ rs) addr port server s
          ≡ dispath_conn
              (record { newfd = ℤ.pos fd; sz_addr = peer; port = peer_port; data_ptr = server })
              s)
      × (accept_callback2 (replicate n again ++ failed ∷ rs) addr port server s
          ≡ dispath_conn
              (record { newfd = negsuc 0; sz_addr = addr; port = port; data_ptr = server })
              s)
unfolding accept_callback2 accept_conn
accept_callback2_one n rs addr port server s = (
  λ fd peer peer_port.
      rw (accept_conn_again n (accepted fd peer peer_port ∷ rs) addr port server) refl,
  rw (accept_conn_again n (failed ∷ rs) addr port server) refl,
)

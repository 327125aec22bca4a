-- ===== src/Pool/Client.antt =====
-- src/client/layer/client.rs: the pooled connection of the HTTP client, as the pool sees it.
use tlsurl.Base.{ℕ, ◌≡◌, refl, Bool, true, false}
use tlsurl.Pool.{Reservation, shared, unique, Poolable}

-- The sending halves of an HTTP/1 and an HTTP/2 connection, which the proto crate owns, are names.
pub data PoolTx : Type 0 where
  http1 http2 : ℕ → PoolTx

pub record PoolClient : Type 0 where
  pub conn_info : ℕ
  pub tx : PoolTx

abbrev pub is_http2 : PoolClient → Bool
is_http2 c = elim c.tx [ http1 n ↦ false | http2 n ↦ true ]

-- A clone of an HTTP/2 sender sends on the same connection.
abbrev pub reserve : PoolClient → Reservation PoolClient
reserve c = elim c.tx [
  | http1 n ↦ unique (record { conn_info = c.conn_info; tx = http1 n })
  | http2 n ↦
      shared (record { conn_info = c.conn_info; tx = http2 n })
        (record { conn_info = c.conn_info; tx = http2 n })
]

pub reserve-http1 :
    (n : ℕ) (tx : PoolTx)
    → is_http2 (record { conn_info = n; tx = tx }) ≡ false
    → reserve (record { conn_info = n; tx = tx }) ≡ unique (record { conn_info = n; tx = tx })
reserve-http1 n (http1 m) alone = refl
reserve-http1 n (http2 m) alone = cc alone

pub reserve-http2 :
    (n : ℕ) (tx : PoolTx)
    → is_http2 (record { conn_info = n; tx = tx }) ≡ true
    → reserve (record { conn_info = n; tx = tx })
      ≡ shared (record { conn_info = n; tx = tx }) (record { conn_info = n; tx = tx })
reserve-http2 n (http1 m) both = cc both
reserve-http2 n (http2 m) both = refl

abbrev pub pool_client : Poolable PoolClient
pool_client = record {
  can_share = is_http2;
  reserve = reserve;
  reserve_unique = λ c alone. reserve-http1 c.conn_info c.tx alone;
  reserve_shared = λ c both. reserve-http2 c.conn_info c.tx both;
}

-- ===== src/Rpc/Client/Post/Ends.antt =====
-- src/rpc/client.rs, `post_and_parse`: its end, and the requests that it sends.
use Prim.Native.String.{String}
use soroban_cost_estimator.Prelude.{ℕ, ◌+◌, ◌≤◌, ◌≡◌, refl, Option, some, arith, length, All, ap}
use soroban_cost_estimator.Error.{Externals, Result, ok, err}
use soroban_cost_estimator.Rpc.Retry.Loop.{Before, with_retry_deadline_total}
use soroban_cost_estimator.Rpc.Client.Post.{
  Wire, Post, Posted, RpcClient, post_and_parse, round, timeout_ms_of, refused_or, built, posted,
}

-- A request that has ended: at most `n` times sent, each time before the deadline.
pub record Bounded {x : Externals} (deadline : Option ℕ) (n : ℕ) (p : Posted x) : Type 0 where
  pub few : length p.requests ≤ n
  pub early : All (Before deadline) p.requests

module _ {x : Externals} (w : Wire x) where
  refused-Bounded :
      (n : ℕ) (deadline : Option ℕ) (b : Result {0, 0} String Unit) (o : Option (Posted x))
      (p : Posted x)
      → o ≡ some p
      → Bounded deadline n p
      → (q : Posted x) × (refused_or w (built w b) o ≡ some q) × Bounded deadline n q
  refused-Bounded n deadline (err message) o p e h =
      (_, refl, record { few = omega arith; early = tt })
  refused-Bounded n deadline (ok u) o p e h = (p, e, h)

  -- A request always ends, and is sent at most once more than the retries allowed.
  pub post_and_parse-Bounded :
      (c : RpcClient) (deadline : Option ℕ) (post : Post w)
      → (p : Posted x) × (post_and_parse w c deadline post ≡ some p)
        × Bounded deadline (c.max_retries + 1) p
  unfolding post_and_parse
  post_and_parse-Bounded c deadline post =
      let t = timeout_ms_of c.total_timeout in
      let (r, e, few, less, early) =
        with_retry_deadline_total c.max_retries deadline t
          (λ n. round w c.connect_timeout (post.attempts n)) in
      refused-Bounded (c.max_retries + 1) deadline c.client _ _ (ap (posted w t post.body) e)
        (record { few = few; early = early })

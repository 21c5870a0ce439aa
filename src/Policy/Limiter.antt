-- ===== src/Policy/Limiter.antt =====
-- src/policy.cpp: `RateLimiter`. The clock's reading is an argument.
use gtlibcpp.Common.{ℕ, ◌+◌, ◌-◌, ◌==◌, leb, ◌||◌, ◌++◌, if◌then◌else◌, Bytes, codes, equal, Exec}
use gtlibcpp.Result.{Error, rate_limited, Result, ok, err, make_error}

pub record Window : Type 0 where
  pub window_start_ms : ℕ
  pub count : ℕ

-- `windows_[alias]` makes an empty window for an alias that has none, so a missing one is empty.
pub record RateLimiter : Type 0 where
  pub max_per_minute : ℕ
  pub windows : Bytes → Window

abbrev pub empty_window : Window
empty_window = record { window_start_ms = 0; count = 0 }

abbrev pub make_limiter : ℕ → RateLimiter
make_limiter max_per_minute = record {
  max_per_minute = max_per_minute;
  windows = λ _. empty_window;
}

abbrev pub store : (Bytes → Window) → Bytes → Window → Bytes → Window
store windows alias w other = if equal other alias then w else windows other

-- The window after the first test of `allow`.
unfoldable pub opened : ℕ → Window → Window
opened now w =
    if w.window_start_ms == 0 || leb 60000 (now - w.window_start_ms)
    then record { window_start_ms = now; count = 0 }
    else w

abbrev pub limit_error : Bytes → Error
limit_error alias =
    make_error rate_limited (codes "rate limit exceeded for target " ++ alias)
      (codes "RateLimiter::allow") 0 0

unfoldable pub allow : ℕ → Bytes → Exec RateLimiter (Result Unit)
unfolding opened
allow now alias l =
    let w = opened now (l.windows alias) in
    if leb l.max_per_minute w.count
    then (err (limit_error alias), record l { windows = store l.windows alias w })
    else (ok tt, record l { windows = store l.windows alias (record w { count = w.count + 1 }) })

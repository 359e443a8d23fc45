-- ===== src/Storage/Open.antt =====
-- `Options`, `Open` and `Close` of internal/storage/neo4j/db.go.
pub mod Held
use memmy.Prelude.{
  ℕ, ◌+◌, ◌*◌, ◌==◌, String, str_eq, Option, none, some, List, [], ◌∷◌, if◌then◌else◌,
}
use memmy.Prelude.Int.{ℤ, pos, int_ltb, int_eqb}
use memmy.Types.Instant.{Time, positive}
use memmy.Storage.Session.{message, Result, ok, err}

pub record Options : Type 0 where
  pub uri : String
  pub username : String
  pub password : String
  pub database : String
  pub dim : ℤ
  pub connect_timeout : ℤ
  pub flat_scan_threshold : ℤ
  pub clock : Option (ℕ → Time)

-- `driver` is the number of the connection pool, none after `Close`.
pub record Storage : Type 0 where
  pub driver : Option ℕ
  pub database : String
  pub dim : ℤ
  pub clock : ℕ → Time
  pub flat_scan_threshold : ℤ

-- github.com/neo4j/neo4j-go-driver: `NewDriverWithContext` at an address with a name and a password,
-- and for a driver `VerifyConnectivity` within a timeout, and what `Close` returns.
pub record Bolt : Type 0 where
  pub new_driver : String → String → String → Result (Unit {0})
  pub verify_connectivity : ℕ → ℤ → Result (Unit {0})
  pub close : ℕ → Result (Unit {0})

-- How many drivers the process has made, and those that are open.
pub record Drivers : Type 0 where
  pub made : ℕ
  pub open_ones : List ℕ

abbrev pub without : ℕ → List ℕ → List ℕ
without h [] = []
without h (k ∷ ks) = let rest = without h ks in if k == h then ks else k ∷ rest

-- `driver.Close`: whatever it returns, the driver is closed.
abbrev pub close_driver : ℕ → Drivers → Drivers
close_driver h p = record p { open_ones = without h p.open_ones }

-- `clock.Real`.
module _ (bolt : Bolt) (real : ℕ → Time) where
  abbrev pub clock_or_real : Option (ℕ → Time) → ℕ → Time
  clock_or_real none = real
  clock_or_real (some c) = c

  abbrev pub with_defaults : Options → Options
  with_defaults o = record o {
    database = if str_eq o.database "" then "neo4j" else o.database;
    flat_scan_threshold =
        if int_eqb o.flat_scan_threshold (pos 0) then pos 5000 else o.flat_scan_threshold;
    clock = some (clock_or_real o.clock);
    connect_timeout =
        if positive o.connect_timeout then o.connect_timeout else pos (10 * 1000000000);
  }

  abbrev pub verified : Options → ℕ → Result (Unit {0}) → Drivers → Result Storage × Drivers
  verified o h (err e) p = (err e, close_driver h p)
  verified o h (ok u) p = (
    ok (record {
      driver = some h;
      database = o.database;
      dim = o.dim;
      clock = clock_or_real o.clock;
      flat_scan_threshold = o.flat_scan_threshold;
    }),
    p,
  )

  abbrev pub dialed : Options → Result (Unit {0}) → Drivers → Result Storage × Drivers
  dialed o (err e) p = (err e, p)
  dialed o (ok u) p =
      verified o p.made (bolt.verify_connectivity p.made o.connect_timeout)
        (record { made = p.made + 1; open_ones = p.made ∷ p.open_ones })

  abbrev pub dial : Options → Drivers → Result Storage × Drivers
  dial o p = dialed o (bolt.new_driver o.uri o.username o.password) p

  unfoldable pub open_storage : Options → Drivers → Result Storage × Drivers
  open_storage o p =
      if str_eq o.uri ""
      then (err (message "neo4jstore: opts.URI required"), p)
      else if str_eq o.username ""
      then (err (message "neo4jstore: opts.Username required"), p)
      else if str_eq o.password ""
      then (err (message "neo4jstore: opts.Password required"), p)
      else if int_ltb o.dim (pos 1)
      then (err (message "neo4jstore: opts.Dim must be >= 1"), p)
      else if int_ltb o.flat_scan_threshold (pos 0)
      then (err (message "neo4jstore: opts.FlatScanThreshold must be >= 0"), p)
      else dial (with_defaults o) p

  abbrev pub closed_by : Storage → Option ℕ → Drivers → Result (Unit {0}) × Storage × Drivers
  closed_by s none p = (ok tt, s, p)
  closed_by s (some h) p = (bolt.close h, record s { driver = none }, close_driver h p)

  -- `Close`.
  unfoldable pub close : Storage → Drivers → Result (Unit {0}) × Storage × Drivers
  close s p = closed_by s s.driver p

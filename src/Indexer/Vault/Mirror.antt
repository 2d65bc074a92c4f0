-- ===== src/Indexer/Vault/Mirror.antt =====
-- The row of `vault_state` and the vault, over sequences of its calls.
use stellars_finance_contrac.Base.{ℕ, Bool, Option, none, some, ◌≡◌, sym, ap, subst}
use stellars_finance_contrac.Base.Int.{ℤ, pos, ◌+ℤ◌, ◌-ℤ◌, ◌≤ℤ◌, ◌<ℤ◌, int_laws}
use stellars_finance_contrac.Indexer.Event.{upsert}
use stellars_finance_contrac.Indexer.Vault.{VaultState, default_state}
use stellars_finance_contrac.Indexer.Vault.Handlers.{
  floor_zero, recompute_free_liquidity, write_column, update_column,
}
use stellars_finance_contrac.Indexer.Vault.Contract.{Books, initial_books, free_liquidity}

-- The books that the row copies.
abbrev pub books_of : VaultState → Books
books_of s = record {
  total_assets = s.total_assets;
  total_shares = s.total_shares;
  reserved_usdc = s.reserved_usdc;
  unclaimed_fees = s.unclaimed_fees;
  net_global_trader_pnl = s.net_global_trader_pnl;
  is_paused = s.is_paused;
}

-- A row that is missing stands for one with every column at its default.
abbrev pub shown : Option VaultState → VaultState
shown none = default_state
shown (some s) = s

-- The row has the vault's books and its free liquidity.
pub record Mirrors (row : Option VaultState) (b : Books) : Type 0 where
  pub tracks : books_of (shown row) ≡ b
  pub free : (shown row).free_liquidity ≡ free_liquidity b

recompute-Mirrors :
    (ledger : ℕ) (row : Option VaultState) (b : Books)
    → books_of (shown row) ≡ b
    → Mirrors (recompute_free_liquidity ledger row) b
unfolding recompute_free_liquidity floor_zero ◌-ℤ◌
recompute-Mirrors ledger none b t = record { tracks = t; free = ap free_liquidity t }
recompute-Mirrors ledger (some s) b t = record { tracks = t; free = ap free_liquidity t }

-- An upsert of the row, then the free liquidity.
pub upsert-Mirrors :
    (ledger : ℕ) (inserted : VaultState) (f : VaultState → VaultState) (row : Option VaultState)
    (b b' : Books)
    → (books_of default_state ≡ b → books_of inserted ≡ b')
    → ((s : VaultState) → books_of s ≡ b → books_of (f s) ≡ b')
    → Mirrors row b
    → Mirrors (recompute_free_liquidity ledger (upsert inserted f row)) b'
upsert-Mirrors ledger inserted f none b b' g h m =
    recompute-Mirrors ledger (some inserted) b' (g m.tracks)
upsert-Mirrors ledger inserted f (some s) b b' g h m =
    recompute-Mirrors ledger (some (f s)) b' (h s m.tracks)

pub write_column-Mirrors :
    (ledger : ℕ) (f : VaultState → VaultState) (row : Option VaultState) (b b' : Books)
    → ((s : VaultState)
        → books_of s ≡ b
        → books_of (f (record s { updated_at_ledger = ledger })) ≡ b')
    → Mirrors row b
    → Mirrors (write_column ledger f row) b'
write_column-Mirrors ledger f row b b' h m =
    upsert-Mirrors ledger _ (λ s. f (record s { updated_at_ledger = ledger })) row b b'
      (h default_state) h m

-- An update, which must leave books that a missing row stands for as they are.
pub update_column-Mirrors :
    (ledger : ℕ) (f : VaultState → VaultState) (row : Option VaultState) (b b' : Books)
    → (books_of default_state ≡ b → books_of default_state ≡ b')
    → ((s : VaultState)
        → books_of s ≡ b
        → books_of (f (record s { updated_at_ledger = ledger })) ≡ b')
    → Mirrors row b
    → Mirrors (update_column ledger f row) b'
update_column-Mirrors ledger f none b b' g h m = recompute-Mirrors ledger none b' (g m.tracks)
update_column-Mirrors ledger f (some s) b b' g h m =
    recompute-Mirrors ledger (some (f (record s { updated_at_ledger = ledger }))) b' (h s m.tracks)

pub zero_add : (z : ℤ) → z ≡ pos 0 +ℤ z
zero_add z = omega int_laws

nothing_left : (z : ℤ) → pos 0 ≤ℤ z → z ≤ℤ pos 0 → pos 0 ≡ pos 0 -ℤ z
nothing_left z lo hi = omega int_laws

pub zero_sub : (z held : ℤ) → pos 0 ≤ℤ z → z ≤ℤ held → pos 0 ≡ held → pos 0 ≡ pos 0 -ℤ z
zero_sub z held lo hi e = nothing_left z lo (subst (λ h. z ≤ℤ h) (sym e) hi)

pub pause_row :
    (row : Option VaultState) (ledger : ℕ) (paused : Bool) (b : Books)
    → Mirrors row b
    → Mirrors
        (upsert
          (record default_state { is_paused = paused; updated_at_ledger = ledger })
          (λ s. record s { is_paused = paused; updated_at_ledger = ledger })
          row)
        (record b { is_paused = paused })
pause_row none ledger paused b m = record {
  tracks = ap {A = Books} (λ c. record c { is_paused = paused }) m.tracks;
  free = m.free;
}
pause_row (some s) ledger paused b m = record {
  tracks = ap {A = Books} (λ c. record c { is_paused = paused }) m.tracks;
  free = m.free;
}

no_gap : (amount : ℤ) → pos 0 <ℤ amount → amount ≤ℤ pos 0 → ⊥
no_gap amount lo hi = omega int_laws

pub positive : (amount held : ℤ) → pos 0 <ℤ amount → amount ≤ℤ held → pos 0 ≡ held → ⊥
positive amount held lo hi e =
    let none_held = subst (λ h. amount ≤ℤ h) (sym e) hi in no_gap amount lo none_held

pub none_free : (amount : ℤ) → amount ≤ℤ free_liquidity initial_books → pos 0 <ℤ amount → ⊥
unfolding floor_zero ◌-ℤ◌
none_free amount hi lo = no_gap amount lo hi

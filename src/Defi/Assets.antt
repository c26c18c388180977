-- ===== src/Defi/Assets.antt =====
-- ace-defi/src/types.rs and withdraw.rs: external assets, their labels, and the addresses they go to.
use ace_chain.Common.{
  ℕ, Bool, true, false, List, [], ◌∷◌, ◌&&◌, ◌++◌, ◌||◌, ◌==◌, codes, length, of_le_bytes,
}

pub data ExternalChain : Type 0 where
  ethereum solana bitcoin tron bsc : ExternalChain

-- The discriminant of the chain.
abbrev pub chain_byte : ExternalChain → ℕ
chain_byte ethereum = 1
chain_byte solana = 2
chain_byte bitcoin = 3
chain_byte tron = 4
chain_byte bsc = 5

abbrev pub name : ExternalChain → List ℕ
name ethereum = codes "ethereum"
name solana = codes "solana"
name bitcoin = codes "bitcoin"
name tron = codes "tron"
name bsc = codes "bsc"

-- Addresses are lists of bytes.
pub data ExternalAsset : Type 0 where
  native : ExternalChain → ExternalAsset
  erc20 bep20 spl_token trc20 : List ℕ → ExternalAsset

abbrev pub chain : ExternalAsset → ExternalChain
chain (native c) = c
chain (erc20 _) = ethereum
chain (bep20 _) = bsc
chain (spl_token _) = solana
chain (trc20 _) = tron

unfoldable pub label : ExternalAsset → List ℕ
label (native c) = name c ++ codes ":native"
label (erc20 addr) = codes "ethereum:erc20:" ++ addr
label (bep20 addr) = codes "bsc:bep20:" ++ addr
label (spl_token mint) = codes "solana:spl:" ++ mint
label (trc20 addr) = codes "tron:trc20:" ++ addr

-- The number that the label's bytes spell, by which records of the asset are kept.
unfoldable pub key_of : ExternalAsset → ℕ
unfolding label
key_of asset = of_le_bytes (label asset)

abbrev pub valid_destination : ExternalAsset → List ℕ → Bool
valid_destination (native ethereum) dest = length dest == 20
valid_destination (erc20 _) dest = length dest == 20
valid_destination (native bsc) dest = length dest == 20
valid_destination (bep20 _) dest = length dest == 20
valid_destination (native solana) dest = length dest == 32
valid_destination (spl_token _) dest = length dest == 32
valid_destination (native tron) dest = length dest == 20
valid_destination (trc20 _) dest = length dest == 20
valid_destination (native bitcoin) dest =
    length dest == 20 || (length dest == 32 || length dest == 33)

abbrev pub native_decimals : ExternalChain → ℕ
native_decimals ethereum = 18
native_decimals solana = 9
native_decimals bitcoin = 8
native_decimals tron = 6
native_decimals bsc = 18

-- Equality of lists of bytes.
abbrev pub same_bytes : List ℕ → List ℕ → Bool
same_bytes [] [] = true
same_bytes (a ∷ rest) (b ∷ others) = a == b && same_bytes rest others
same_bytes _ _ = false

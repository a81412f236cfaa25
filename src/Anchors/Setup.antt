-- ===== src/Anchors/Setup.antt =====
-- The configuration of the chain: `contractAddress`, `privateKey`, `chainReady`, `rpcUrl`, `readDeployment`
-- and `getStatus` of apps/api/src/blockchain/blockchain.service.ts, and
-- apps/api/src/blockchain/viem-chain.ts. What the node answers is a parameter.
use fuel_chain.Base.{
  ℕ, zero, suc, ◌≡◌, refl, sym, ap, ◌∙◌, String, Bool, true, false, ◌&&◌, ◌||◌, Option, none, some,
  List, [], ◌∷◌, ◌==◌, leb, get_or, or_else, is_some, if◌then◌else◌, Result, ok, err, ◌>>=◌,
  >>=-eq-ok, arith,
}
use Prim.Native.Char.{code}
use Prim.Native.String.{◌++◌}
use fuel_chain.Base.Text.{trim}
use fuel_chain.Custody.Accept.{given}
use fuel_chain.Anchors.{Failure, address_missing, key_missing, key_malformed}

-- `[a-fA-F0-9]`
abbrev is_hex_digit : ℕ → Bool
is_hex_digit c = (leb 48 c && leb c 57) || ((leb 65 c && leb c 70) || (leb 97 c && leb c 102))

-- Just so many hexadecimal digits.
unfoldable pub is_hex : ℕ → String → Bool
is_hex zero String.[] = true
is_hex zero (String.◌∷◌ c s) = false
is_hex (suc n) String.[] = false
is_hex (suc n) (String.◌∷◌ c s) = let rest = is_hex n s in is_hex_digit (code c) && rest

-- `/^0x[a-fA-F0-9]{n}$/.test(text)`
unfoldable pub is_prefixed_hex : ℕ → String → Bool
unfolding is_hex
is_prefixed_hex n (String.◌∷◌ z (String.◌∷◌ x s)) = code z == 48 && (code x == 120 && is_hex n s)
is_prefixed_hex n _ = false

-- The variables of the environment; the numbers are what `Number` makes of their texts.
pub record Environment : Type 0 where
  pub contract_address : Option String
  pub private_key : Option String
  pub chain_rpc_url : Option String
  pub chain_id : Option ℕ

abbrev trimmed : Option String → Option String
trimmed none = none
trimmed (some s) = given (some (trim s))

-- A text of the right form, or none.
abbrev pub well_formed : ℕ → Option String → Option String
well_formed n none = none
well_formed n (some s) = if is_prefixed_hex n s then some s else none

-- The address of the environment, or that of the file of the deployment.
unfoldable pub contract_address : Environment → Option String → Option String
contract_address env deployment =
    or_else (well_formed 40 (trimmed env.contract_address)) (well_formed 40 deployment)

-- A key that is not well formed throws.
abbrev pub checked_key : Option String → Result Failure (Option String)
checked_key none = ok none
checked_key (some key) = if is_prefixed_hex 64 key then ok (some key) else err key_malformed

unfoldable pub private_key : Environment → Result Failure (Option String)
private_key env = checked_key (trimmed env.private_key)

-- A missing address is found before the key is read.
abbrev pub ready_of :
    Option String → Result Failure (Option String) → Result Failure (Option Failure)
ready_of none key = ok (some address_missing)
ready_of (some address) (err f) = err f
ready_of (some address) (ok none) = ok (some key_missing)
ready_of (some address) (ok (some key)) = ok none

-- `none` where the chain is ready.
unfoldable pub chain_ready : Environment → Option String → Result Failure (Option Failure)
chain_ready env deployment = ready_of (contract_address env deployment) (private_key env)

abbrev pub hardhat_id : ℕ
hardhat_id = 31337

abbrev pub hsk_id : ℕ
hsk_id = 133

abbrev pub chain_id_of : Environment → ℕ
chain_id_of env = get_or env.chain_id hardhat_id

-- A chain of the client.
pub record ChainConfig : Type 0 where
  pub id : ℕ
  pub name : String
  pub symbol : String
  pub rpc : String

abbrev pub custom_chain : (ℕ → String) → ℕ → String → ChainConfig
custom_chain decimal id rpc = record {
  id = id;
  name = if id == hsk_id then "HashKey Chain Testnet" else "chain-" ++ decimal id;
  symbol = if id == hsk_id then "HSK" else "ETH";
  rpc = rpc;
}

-- The chain `hardhat` of the client is a parameter; any other needs an address of its node.
unfoldable pub chain_from_env : (ℕ → String) → ChainConfig → Environment → Option ChainConfig
chain_from_env decimal hardhat env =
    if chain_id_of env == hardhat_id then some hardhat else elim (trimmed env.chain_rpc_url) [
      | none ↦ none
      | some rpc ↦ some (custom_chain decimal (chain_id_of env) rpc)
    ]

unfoldable pub deployment_file_for_chain_id : (ℕ → String) → ℕ → String
deployment_file_for_chain_id decimal id =
    if id == hardhat_id
    then "localhost.json"
    else (if id == hsk_id then "hsk-testnet.json" else "chain-" ++ decimal id ++ ".json")

-- The first file that is there and can be read: what reads one is a parameter.
pub data File : Type 0 where
  absent unreadable : File
  parsed : Option String → File

unfoldable pub read_deployment : List File → Option String
read_deployment [] = none
read_deployment (File.absent ∷ files) = read_deployment files
read_deployment (File.unreadable ∷ files) = read_deployment files
read_deployment (File.parsed address ∷ files) = address

abbrev pub rpc_url : Environment → String
rpc_url env = get_or (given env.chain_rpc_url) "http://127.0.0.1:8545"

-- What the node answers: nothing where it fails, else its chain, its block, and the count of the anchors,
-- which is asked for where there is an address and may fail too.
pub record Node : Type 0 where
  pub chain : Option (ℕ × ℕ)
  pub anchor_count : String → Option ℕ

pub record Status : Type 0 where
  pub live : Bool
  pub rpc_reachable : Bool
  pub chain_id : Option ℕ
  pub block_number : Option ℕ
  pub contract_address : Option String
  pub has_private_key : Bool
  pub on_chain_anchor_count : Option ℕ

abbrev pub counted : Node → Option String → Option ℕ
counted node none = none
counted node (some address) = node.anchor_count address

abbrev pub status_of : Option (ℕ × ℕ) → Node → Option String → Bool → Status
status_of none node address has_key = record {
  live = false;
  rpc_reachable = false;
  chain_id = none;
  block_number = none;
  contract_address = address;
  has_private_key = has_key;
  on_chain_anchor_count = none;
}
status_of (some (chain, block)) node address has_key = record {
  live = is_some address && has_key;
  rpc_reachable = true;
  chain_id = some chain;
  block_number = some block;
  contract_address = address;
  has_private_key = has_key;
  on_chain_anchor_count = counted node address;
}

-- A malformed key makes the request fail.
unfoldable pub get_status : Environment → Option String → Node → Result Failure Status
get_status env deployment node = do
  key ← private_key env
  ok (status_of node.chain node (contract_address env deployment) (is_some key))

well_formed-hex :
    (n : ℕ) (o : Option String) (s : String) → well_formed n o ≡ some s → is_prefixed_hex n s ≡ true
well_formed-hex n none s h = absurd (cc)
well_formed-hex n (some t) s h = tested (is_prefixed_hex n t) refl h
  where
    tested :
        (b : Bool)
        → is_prefixed_hex n t ≡ b
        → ◌≡◌ {A = Option String} (if b then some t else none) (some s)
        → is_prefixed_hex n s ≡ true
    tested true e h = cc
    tested false e h = absurd (cc)

or_else-hex :
    (n : ℕ) (a b : Option String) (s : String)
    → or_else (well_formed n a) (well_formed n b) ≡ some s
    → is_prefixed_hex n s ≡ true
or_else-hex n a b s h = chosen (well_formed n a) refl h
  where
    chosen :
        (o : Option String)
        → well_formed n a ≡ o
        → or_else o (well_formed n b) ≡ some s
        → is_prefixed_hex n s ≡ true
    chosen none e h = well_formed-hex n b s h
    chosen (some t) e h = well_formed-hex n a s (e ∙ h)

ready_by :
    (chain : Option (ℕ × ℕ)) (address key : Option String) (node : Node) (s : Status)
    → status_of chain node address (is_some key) ≡ s
    → s.live ≡ true
    → (a : String) × (k : String) × (n : ℕ × ℕ) × (address ≡ some a)
      × (key ≡ some k)
      × (chain ≡ some n)
      × (s.contract_address ≡ some a)
ready_by none address key node s e live = absurd (cc)
ready_by (some n) none key node s e live = absurd (cc)
ready_by (some n) (some a) none node s e live = absurd (cc)
ready_by (some n) (some a) (some k) node s e live =
    (a, k, n, refl, refl, refl, ap (λ (x : Status). x.contract_address) (sym e))

ready_from :
    (env : Environment) (dep : Option String) (a k : String)
    → contract_address env dep ≡ some a
    → private_key env ≡ ok (some k)
    → chain_ready env dep ≡ ok none
unfolding chain_ready
ready_from env dep a k address key =
    ap (λ (o : Option String). ready_of o (private_key env)) address ∙ ap (ready_of (some a)) key

-- Where the status says that the chain is live, the node answered, the address of the contract that it
-- shows has the form of one, and evidence can be written: neither the address nor the key is missing.
pub get_status-live :
    (env : Environment) (dep : Option String) (node : Node) (s : Status)
    → get_status env dep node ≡ ok s
    → s.live ≡ true
    → (a : String) × (n : ℕ × ℕ) × (s.contract_address ≡ some a)
      × (is_prefixed_hex 40 a ≡ true)
      × (node.chain ≡ some n)
      × (chain_ready env dep ≡ ok none)
unfolding get_status contract_address
get_status-live env dep node s h live =
    let (key, checked, ends) = >>=-eq-ok (private_key env) _ h in
    let shown : status_of node.chain node (contract_address env dep) (is_some key) ≡ s =
      ground arith in
    let (a, k, n, address, has_key, answered, showed) =
      ready_by node.chain (contract_address env dep) key node s shown live in
    (
      a,
      n,
      showed,
      or_else-hex 40 (trimmed env.contract_address) dep a address,
      answered,
      ready_from env dep a k address (checked ∙ ap ok has_key),
    )

-- ===== src/Scenarios/Hosts.antt =====
-- The theorems on the scripts and on the worker process, used at concrete runs.
use synthetic_order_executor.Base.{
  ◌≡◌, refl, arith, true, false, none, some, [], ◌∷◌, ◌++◌, Text, text, replicate, same_text,
  if◌then◌else◌, Option,
}
use synthetic_order_executor.Order.{executing, pending}
use synthetic_order_executor.Chain.Monitor.{get_outcome}
use synthetic_order_executor.Effects.{World, done, is_done}
use synthetic_order_executor.Effects.Ensures.{IfDone}
use synthetic_order_executor.TxMonitor.{check, sweep_stuck}
use synthetic_order_executor.Scripts.{Node}
use synthetic_order_executor.Scripts.Deploy.{Artifact}
use synthetic_order_executor.Config.{Parsing, Variables, load_chain_config}
use synthetic_order_executor.Workers.{Startup, start_worker, monitor_job, check_job, assert_chain}
use synthetic_order_executor.Workers.Ready.{Ready, start_worker-Ready}
use synthetic_order_executor.Http.Start.{Agrees, start_api, start_api-Agrees}
use synthetic_order_executor.Config.Api.{load_api_env}
use synthetic_order_executor.Workers.Rechecks.{Watched, monitor_job-Watches}
use synthetic_order_executor.Reconciler.{default_options}
use synthetic_order_executor.Reconciler.CatchUp.{Healthy, passes, passes-catch_up}
use synthetic_order_executor.Scenarios.Samples.{order_in, world_with, env}
use synthetic_order_executor.Scenarios.Web.{sources}

abbrev some_address : Text
some_address = text "0x" ++ replicate 40 b'1'

abbrev script_variable : Text → Option Text
script_variable name =
    if same_text name (text "UNISWAP_SWAP_ROUTER_02")
    then some some_address
    else if same_text name (text "WETH_ADDRESS")
    then some some_address
    else if same_text name (text "SEPOLIA_RPC_URL")
    then some (text "https://node")
    else none

abbrev node : Node
node = record {
  variable = script_variable;
  is_address = λ s. true;
  get_address = λ s. 17;
  parse_ether = λ s. done 20000000000000000;
  parse_big_int = λ s. done 5;
  key_address = λ s. done 6;
  format_ether = λ n. text "1";
  encode = λ tx. 1;
  get_chain_id = λ n. done 11155111;
  get_block_number = λ n. done 100;
  get_wallet = λ n. done (some 5);
  get_balance = λ n a. done 1000000000000000000;
  get_code = λ n a. done (some (text "0x60"));
  write = λ n tx. done 99;
  wait_for_receipt =
      λ n h. done (record { is_success = true; contract_address = some 40; block_number = 101 });
  allowed_token = λ n a. done true;
  max_trade_amount = λ n a. done 5;
  executor = λ n. done 6;
  executor_role = λ n. done 1;
  admin_role = λ n. done 0;
  has_role = λ n r a. done true;
  paused = λ n. done false;
  vault_balance = λ n a t. done 20000000000000000;
  token_balance = λ n t a. done 20000000000000000;
}

abbrev artifact : Artifact
artifact = record { deployed_bytecode = text "0x60"; immutable_references = (0, 1) ∷ [] }

abbrev variables : Variables
variables name =
    if same_text name (text "CHAIN_ID")
    then some (text "11155111")
    else if same_text name (text "SEPOLIA_RPC_URL")
    then some (text "https://node")
    else if same_text name (text "EXECUTOR_CONTRACT_ADDRESS")
    then some some_address
    else if same_text name (text "EXECUTOR_PRIVATE_KEY")
    then some (text "0x" ++ replicate 64 b'a')
    else if same_text name (text "DATABASE_URL")
    then some (text "postgres://db")
    else none

abbrev zod : Parsing
zod = record {
  coerce = λ s. some 11155111;
  coerce_positive = λ s. some 100;
  is_url = λ s. true;
  number = λ s. 500;
}

abbrev outside : Startup
outside = record {
  account_of = λ key. done 1;
  get_chain_id = λ n. done 11155111;
  add_repeatable = λ n name every. done tt;
}

start_worker-Ready_example :
    IfDone
      (Ready outside sources zod variables env)
      (start_worker outside sources zod variables env (world_with (order_in pending))).0
start_worker-Ready_example =
    start_worker-Ready outside sources zod variables env (world_with (order_in pending))

monitor_job-Watches_example :
    let monitor = get_outcome 1 600000 in
    Watched (check monitor) 7 env (world_with (order_in executing)) (
      monitor_job
        (check monitor)
        (sweep_stuck monitor 300000 50)
        (check_job 7)
        env
        (world_with (order_in executing)))
monitor_job-Watches_example =
    monitor_job-Watches (get_outcome 1 600000) (sweep_stuck (get_outcome 1 600000) 300000 50) 7 env
      (world_with (order_in executing))

env-Healthy : Healthy env 5000
env-Healthy = record {
  no_fault = λ n. refl;
  head_at = λ n. refl;
  logs_at = λ n from to. ([], refl);
}

passes-catch_up_example :
    (w' : World) × (passes default_options 1 env (world_with (order_in pending)) ≡ (done tt, w'))
    × (w'.checkpoint ≡ some 5000)
unfolding default_options
passes-catch_up_example =
    passes-catch_up default_options env 5000 env-Healthy (omega arith) 1 100
      (world_with (order_in pending)) refl (omega arith) (omega arith)

-- The tokens are required of the API.
abbrev api_variables : Variables
api_variables name =
    if same_text name (text "WETH_ADDRESS")
    then some some_address
    else if same_text name (text "USDC_ADDRESS")
    then some some_address
    else variables name

start_api-Agrees_example :
    IfDone
      (Agrees outside sources zod (λ v. none) api_variables)
      (start_api outside sources zod
        (λ v. none)
        api_variables
        env
        (world_with (order_in pending))).0
start_api-Agrees_example =
    start_api-Agrees outside sources zod (λ v. none) api_variables env
      (world_with (order_in pending))

api_starts :
    is_done
      (start_api outside sources zod
        (λ v. none)
        api_variables
        env
        (world_with (order_in pending))).0
    ≡ true
unfolding start_api load_api_env load_chain_config assert_chain same_text
    synthetic_order_executor.Effects.◌>>=◌ synthetic_order_executor.Http.Schemas.◌>>=◌
    synthetic_order_executor.Effects.ask
api_starts = refl

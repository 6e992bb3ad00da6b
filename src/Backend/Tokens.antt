-- ===== src/Backend/Tokens.antt =====
-- The token registry of apps/backend/src/config/tokens.ts.
use synthetic_order_executor.Base.{ℕ, ◌++◌, Text, text, same_text, to_upper, if◌then◌else◌}
use synthetic_order_executor.Order.{Address}
use synthetic_order_executor.Effects.{token_not_supported, Outcome, done, threw}
use synthetic_order_executor.Execution.{ChainTokens}

pub record TokenInfo : Type 0 where
  pub symbol : Text
  pub address : Address
  pub decimals : ℕ

unfoldable pub resolve_token : ChainTokens → Text → Outcome TokenInfo
resolve_token config symbol =
    let s = to_upper symbol in
    if same_text s (text "ETH")
    then done (record { symbol = text "ETH"; address = config.weth; decimals = 18 })
    else if same_text s (text "WETH")
    then done (record { symbol = text "WETH"; address = config.weth; decimals = 18 })
    else if same_text s (text "USDC")
    then done (record { symbol = text "USDC"; address = config.usdc; decimals = 6 })
    else threw (record {
      kind = token_not_supported;
      message = text "Token " ++ (symbol ++ text " is not supported");
    })

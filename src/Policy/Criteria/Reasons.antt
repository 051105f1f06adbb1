-- ===== src/Policy/Criteria/Reasons.antt =====
-- `failReason` of every evaluator, with the texts that it composes.
use guardian_wallet.Prelude.{Option, none, some, ◌++◌, Text, codes, or_else}
use guardian_wallet.Policy.Types.{
  Number, PolicyContext, Criterion, eth_value, evm_address, evm_network, evm_function, ip_address,
  rate_limit, time_window, daily_limit, monthly_limit, max_per_tx_usd, daily_limit_usd,
  monthly_limit_usd, block_infinite_approvals, max_slippage, mev_protection, SetOperator, is_in,
  not_in,
}

pub record FailReason : Type 0 where
  pub short : Text
  pub detail : Text

abbrev pub unknown : Option Text → Text
unknown t = or_else t (codes "unknown")

abbrev address_reason : SetOperator → Option Text → FailReason
address_reason not_in to = record {
  short = codes "Blocked address";
  detail = codes "Transaction to blocked address " ++ unknown to;
}
address_reason is_in to = record {
  short = codes "Address not approved";
  detail = codes "Address " ++ (unknown to ++ codes " is not in the approved list");
}

abbrev network_detail : SetOperator → Text → Text
network_detail is_in chain = codes "Chain " ++ (chain ++ codes " is not in the allowed networks")
network_detail not_in chain = codes "Chain " ++ (chain ++ codes " is blocked")

module _ {F : Type 0} ⦃num : Number F⦄ where
  abbrev tx_usd_detail : Option F → F → Text
  tx_usd_detail none max_usd =
      codes "Unable to determine USD value — price data unavailable (fail-closed)"
  tx_usd_detail (some v) max_usd =
      codes "Transaction value $"
      ++ (num.to_fixed_2 v
          ++ (codes " exceeds per-transaction limit of $" ++ num.to_locale_string max_usd))

  abbrev spend_usd_detail : Text → Text → Text → Option F → Option F → F → Text
  spend_usd_detail unable start middle (some v) (some spent) max_usd =
      start ++ (num.to_fixed_2 (num.add spent v) ++ (middle ++ num.to_locale_string max_usd))
  spend_usd_detail unable start middle _ _ max_usd = unable

  unfoldable pub fail_reason : Criterion F → PolicyContext F → FailReason
  fail_reason (eth_value operator value) ctx = record {
    short = codes "ETH value limit exceeded";
    detail = codes "Transaction value exceeds ETH limit";
  }
  fail_reason (evm_address operator addresses allow_deploy) ctx =
      address_reason operator ctx.to_address
  fail_reason (evm_network operator chain_ids) ctx = record {
    short = codes "Network not allowed";
    detail = network_detail operator (num.int_to_string ctx.chain_id);
  }
  fail_reason (evm_function selectors allow_plain_transfer) ctx = record {
    short = codes "Function not allowed";
    detail =
        codes "Function " ++ (unknown ctx.function_selector ++ codes " is not in the allowed list");
  }
  fail_reason (ip_address operator ips) ctx = record {
    short = codes "IP not allowed";
    detail = codes "IP " ++ (unknown ctx.caller_ip ++ codes " is not allowed");
  }
  fail_reason (rate_limit max_per_hour) ctx = record {
    short = codes "Rate limit exceeded";
    detail =
        codes "Rate limit exceeded: "
        ++ (num.int_to_string ctx.request_count_last_hour
            ++ (codes "/" ++ (num.int_to_string max_per_hour ++ codes " requests this hour")));
  }
  fail_reason (time_window start_hour end_hour) ctx = record {
    short = codes "Outside trading hours";
    detail =
        codes "Current hour "
        ++ (num.int_to_string ctx.current_hour_utc
            ++ (codes " UTC is outside trading window "
                ++ (num.int_to_string start_hour
                    ++ (codes ":00–" ++ (num.int_to_string end_hour ++ codes ":00")))));
  }
  fail_reason (daily_limit max_wei) ctx = record {
    short = codes "Daily ETH limit exceeded";
    detail = codes "Rolling 24h spend exceeds daily ETH limit";
  }
  fail_reason (monthly_limit max_wei) ctx = record {
    short = codes "Monthly ETH limit exceeded";
    detail = codes "Rolling 30d spend exceeds monthly ETH limit";
  }
  fail_reason (max_per_tx_usd max_usd) ctx = record {
    short = codes "Per-transaction limit exceeded";
    detail = tx_usd_detail ctx.value_usd max_usd;
  }
  fail_reason (daily_limit_usd max_usd) ctx = record {
    short = codes "Daily spending limit exceeded";
    detail =
        spend_usd_detail
          (codes "Unable to verify daily spend — price data unavailable (fail-closed)")
          (codes "Daily spend $") (codes " would exceed daily limit of $") ctx.value_usd
          ctx.rolling_daily_spend_usd max_usd;
  }
  fail_reason (monthly_limit_usd max_usd) ctx = record {
    short = codes "Monthly spending limit exceeded";
    detail =
        spend_usd_detail
          (codes "Unable to verify monthly spend — price data unavailable (fail-closed)")
          (codes "Monthly spend $") (codes " would exceed monthly limit of $") ctx.value_usd
          ctx.rolling_monthly_spend_usd max_usd;
  }
  fail_reason (block_infinite_approvals enabled) ctx = record {
    short = codes "Unlimited approval blocked";
    detail = codes "Unlimited token approval detected — only finite approvals allowed";
  }
  fail_reason (max_slippage max_percent) ctx = record {
    short = codes "Slippage exceeds " ++ (num.to_string max_percent ++ codes "%");
    detail =
        codes "Swap detected with slippage protection exceeding the "
        ++ (num.to_string max_percent
            ++ codes "% maximum. This makes the transaction vulnerable to sandwich attacks.");
  }
  fail_reason (mev_protection enabled) ctx = record {
    short = codes "MEV protection required";
    detail =
        codes
          "Swap transaction detected without MEV protection. Route through a private relay (Flashbots Protect, MEV Blocker) or disable MEV protection for this signer.";
  }

-- ===== src/Positions.antt =====
-- aos/pnl and aos/position_strategy: the profit of positions, realized and unrealized. Prices and
-- quantities are integers; the parameter `quot` stands for the division of the price type. A key is
-- an exchange with a trading pair, given one number.
pub mod Calculators
pub mod Unrealized
pub mod Net
pub mod Hedged
pub mod Storage
pub mod Executions
